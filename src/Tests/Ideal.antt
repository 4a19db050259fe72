-- ===== src/Tests/Ideal.antt =====
-- Concrete parameters for the examples: metrics over the integers, a search for a literal text in
-- place of the engine of expressions, and one file.
use vpub_exporter.Prelude.{
  ℕ, ◌+◌, Bool, true, false, Option, none, some, [], ◌∷◌, refl, if◌then◌else◌, ℤ, pos, ◌+ℤ◌, length,
  drop,
}
use vpub_exporter.Text.{Bytes, codes, contains}
use vpub_exporter.Errors.{ok}
use vpub_exporter.Clock.{Time, zero_time}
use vpub_exporter.Regexp.{Engine}
use vpub_exporter.Prometheus.{Prometheus, Labels, labels_eq}
use vpub_exporter.Logtail.Drain.{Reader}
use vpub_exporter.Logtail.Poll.{InodeKey, FileInfo, World, inode_of}
use vpub_exporter.Logtail.Delivery.{Serves}

abbrev pub ideal : Prometheus
ideal = record {
  Value = ℤ;
  float64 = λ z. z;
  seconds = λ z. z;
  plus = ◌+ℤ◌;
  Gauge = ℤ;
  set = λ g v. v;
  value = λ g. g;
  new_gauge = λ o. pos 0;
  value-new_gauge = λ o. refl;
  value-set = λ g v. refl;
  GaugeVec = Labels → Option ℤ;
  set_at = λ g l v k. if labels_eq l k then some v else g k;
  value_at = λ g k. g k;
  new_gauge_vec = λ o k. none;
  value_at-new_gauge_vec = λ o k. refl;
  value_at-set_at = λ g l v k. refl;
  Counter = ℤ;
  add = ◌+ℤ◌;
  total = λ c. c;
  new_counter = λ o. pos 0;
  total-new_counter = λ o. refl;
  total-add = λ c n h. refl;
  CounterVec = (Labels → ℤ) × (Labels → Bool);
  with_label_values = λ c l. (c.0, λ k. if labels_eq l k then true else c.1 k);
  add_at = λ c l n. (
    λ k. if labels_eq l k then c.0 k +ℤ n else c.0 k,
    λ k. if labels_eq l k then true else c.1 k,
  );
  total_at = λ c k. c.0 k;
  exists_at = λ c k. c.1 k;
  new_counter_vec = λ o. (λ k. pos 0, λ k. false);
  total_at-new_counter_vec = λ o k. refl;
  exists_at-new_counter_vec = λ o k. refl;
  total_at-with = λ c l k. refl;
  exists_at-with = λ c l k. refl;
  total_at-add_at = λ c l n k h. refl;
  HistogramVec = Labels → ℕ;
  observe = λ h l v k. if labels_eq l k then h k + 1 else h k;
  count_at = λ h k. h k;
  new_histogram_vec = λ o k. 0;
  count_at-new_histogram_vec = λ o k. refl;
  count_at-observe = λ h l v k. refl;
}

abbrev pub no_gauges : Labels → Option ℤ
no_gauges k = none

abbrev pub no_counts : (Labels → ℤ) × (Labels → Bool)
no_counts = (λ k. pos 0, λ k. false)

-- Every text compiles, and a match has the whole line and two groups of one digit.
abbrev pub literal : Engine
literal = record {
  compiles = λ p. true;
  find_string_submatch =
      λ p line. if contains line p then line ∷ codes "7" ∷ codes "5" ∷ [] else [];
}

-- The time `n` seconds after 1970.
abbrev pub moment : ℕ → Time
moment n = record { sec = pos (62135596800 + n); nsec = 0 }

abbrev pub reader : Reader
reader = record { engine = literal; line_prefix = none }

abbrev pub key : InodeKey
key = record { dev = 1; ino = 2 }

abbrev pub info_at : InodeKey → Bytes → FileInfo
info_at k c = record { sys = some k; size = length c; mod_time = zero_time }

-- A round in which the newest file, open as `h`, has the content `c`.
abbrev pub serving : Bytes → ℕ → InodeKey → Bytes → World
serving path h k c = record {
  latest_file = ok path;
  stat = λ p. some (info_at k c);
  open_file = λ p. some h;
  stat_handle = λ i. some (info_at k c);
  read_at = λ i off. some (drop off c);
  now = zero_time;
  room = none;
}

pub serving-Serves :
    (path : Bytes) (h : ℕ) (k : InodeKey) (c : Bytes) → Serves path h k (serving path h k c) c
unfolding inode_of
serving-Serves path h k c = record {
  info = info_at k c;
  latest_is = refl;
  stat_is = refl;
  inode_is = refl;
  size_is = refl;
  opens = refl;
  handle_is = refl;
  reads = λ off. refl;
  not_cancelled = refl;
}

-- A round in which the file "/l/1", open as 3, has the content `c`.
abbrev pub world : Bytes → World
world c = serving (codes "/l/1") 3 key c

pub world-Serves : (c : Bytes) → Serves (codes "/l/1") 3 key (world c) c
world-Serves c = serving-Serves (codes "/l/1") 3 key c
