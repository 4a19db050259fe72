-- ===== src/Prometheus.antt =====
-- The client library of Prometheus, which is outside this repository, as the collectors use it.
use vpub_exporter.Prelude.{
  ℕ, ◌+◌, ◌≡◌, Bool, true, false, ◌&&◌, Option, none, some, List, [], ◌∷◌, if◌then◌else◌, ℤ, pos,
  ◌≤ℤ◌,
}
use vpub_exporter.Text.{Bytes, bytes_eq}

-- Label values, in the order of the label names.
abbrev pub Labels : Type 0
Labels = List Bytes

abbrev pub labels_eq : Labels → Labels → Bool
labels_eq [] [] = true
labels_eq (a ∷ s) (b ∷ t) = bytes_eq a b && labels_eq s t
labels_eq _ _ = false

-- The options of a new metric, with the names of its labels. Help texts and buckets are left out.
pub record Opts : Type 0 where
  pub namespace : Bytes
  pub subsystem : Bytes
  pub name : Bytes
  pub label_names : List Bytes

-- The laws are the documented behaviour: a gauge has the value last set, a counter grows by what is
-- added (Add with a negative value panics, so nothing is said of it), WithLabelValues makes a
-- series with value 0 if there is none, and a call on one series leaves the others alone. `none` is
-- a series that was never made. A new gauge or counter is 0, and a new vector has no series.
-- `float64` is the conversion from integers, `seconds` that of durations in nanoseconds.
pub record Prometheus : Type 1 where
  pub Value : Type 0
  pub float64 : ℤ → Value
  pub seconds : ℤ → Value
  pub plus : Value → Value → Value
  pub Gauge : Type 0
  pub set : Gauge → Value → Gauge
  pub value : Gauge → Value
  pub new_gauge : Opts → Gauge
  pub value-new_gauge : (o : Opts) → value (new_gauge o) ≡ float64 (pos 0)
  pub value-set : (g : Gauge) (v : Value) → value (set g v) ≡ v
  pub GaugeVec : Type 0
  pub set_at : GaugeVec → Labels → Value → GaugeVec
  pub value_at : GaugeVec → Labels → Option Value
  pub new_gauge_vec : Opts → GaugeVec
  pub value_at-new_gauge_vec : (o : Opts) (k : Labels) → value_at (new_gauge_vec o) k ≡ none
  pub value_at-set_at :
      (g : GaugeVec) (l : Labels) (v : Value) (k : Labels)
      → value_at (set_at g l v) k ≡ (if labels_eq l k then some v else value_at g k)
  pub Counter : Type 0
  pub add : Counter → ℤ → Counter
  pub total : Counter → Value
  pub new_counter : Opts → Counter
  pub total-new_counter : (o : Opts) → total (new_counter o) ≡ float64 (pos 0)
  pub total-add : (c : Counter) (n : ℤ) → pos 0 ≤ℤ n → total (add c n) ≡ plus (total c) (float64 n)
  pub CounterVec : Type 0
  pub with_label_values : CounterVec → Labels → CounterVec
  pub add_at : CounterVec → Labels → ℤ → CounterVec
  pub total_at : CounterVec → Labels → Value
  pub exists_at : CounterVec → Labels → Bool
  pub new_counter_vec : Opts → CounterVec
  pub total_at-new_counter_vec :
      (o : Opts) (k : Labels) → total_at (new_counter_vec o) k ≡ float64 (pos 0)
  pub exists_at-new_counter_vec : (o : Opts) (k : Labels) → exists_at (new_counter_vec o) k ≡ false
  pub total_at-with :
      (c : CounterVec) (l : Labels) (k : Labels) → total_at (with_label_values c l) k ≡ total_at c k
  pub exists_at-with :
      (c : CounterVec) (l : Labels) (k : Labels)
      → exists_at (with_label_values c l) k ≡ (if labels_eq l k then true else exists_at c k)
  pub total_at-add_at :
      (c : CounterVec) (l : Labels) (n : ℤ) (k : Labels)
      → pos 0 ≤ℤ n
      → total_at (add_at c l n) k
        ≡ (if labels_eq l k then plus (total_at c k) (float64 n) else total_at c k)
  pub HistogramVec : Type 0
  pub observe : HistogramVec → Labels → Value → HistogramVec
  pub count_at : HistogramVec → Labels → ℕ
  pub new_histogram_vec : Opts → HistogramVec
  pub count_at-new_histogram_vec : (o : Opts) (k : Labels) → count_at (new_histogram_vec o) k ≡ 0
  pub count_at-observe :
      (h : HistogramVec) (l : Labels) (v : Value) (k : Labels)
      → count_at (observe h l v) k ≡ (if labels_eq l k then count_at h k + 1 else count_at h k)
