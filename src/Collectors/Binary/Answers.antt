-- ===== src/Collectors/Binary/Answers.antt =====
-- The remote gauges of the binary collector with `RemoteLastModified` of internal/binary: from the
-- answers to HEAD requests to what the gauges show.
use vpub_exporter.Prelude.{
  false, Option, some, List, [], ◌∷◌, ◌++◌, ◌≡◌, ◌⊎◌, inl, inr, ◌↔◌, refl, sym, ap, ◌∙◌, arith, All,
  map, pos,
}
use mathlib.Core.List.{map-append}
use vpub_exporter.Text.{Bytes, is_empty}
use vpub_exporter.Errors.{Result-cases, err-ok, Error, Result, ok, err}
use vpub_exporter.Clock.{Time, unix}
use vpub_exporter.Prometheus.{Prometheus}
use vpub_exporter.Probes.Http.{Response}
use vpub_exporter.Probes.BinaryHttp.{remote_last_modified}
use vpub_exporter.Collectors.Binary.{BinaryCollector}
use vpub_exporter.Collectors.Binary.Remote.{
  visor, IsFresh, last_modified, last_ok, tick_all, tick_all-last_modified,
}

module _ (parse_time : Bytes → Result Time) where
  -- The answer gives the time `t`: it came, with status 200 and a Last-Modified that parses to `t`.
  abbrev pub IsDated : Result Response → Time → Type 0
  IsDated (ok r) t =
      (r.status_code ≡ 200)
      × (is_empty r.last_modified ≡ false)
      × (parse_time r.last_modified ≡ ok t)
  IsDated (err e) t = ⊥

  abbrev pub Undated : Result Response → Type 0
  Undated a = ¬ ((t : Time) × IsDated a t)

  -- `t` is the time of the last dated answer.
  pub record IsLastDated (answers : List (Result Response)) (t : Time) : Type 0 where
    pub before : List (Result Response)
    pub answer : Result Response
    pub behind : List (Result Response)
    pub splits : answers ≡ before ++ answer ∷ behind
    pub dated : IsDated answer t
    pub undated : All Undated behind

  remote_last_modified_iff :
      (a : Result Response) (t : Time) → (remote_last_modified parse_time a ≡ ok t) ↔ IsDated a t
  unfolding remote_last_modified
  remote_last_modified_iff (ok r) t =
      (λ h. (ground arith, ground arith, ground arith), λ d. ground arith)
  remote_last_modified_iff (err e) t = (λ h. absurd (err-ok h), λ d. absurd d)

  remote_last_modified-cases :
      (a : Result Response)
      → ((t : Time) × IsDated a t × (remote_last_modified parse_time a ≡ ok t))
        ⊎ (Undated a × ((e : Error) × (remote_last_modified parse_time a ≡ err e)))
  remote_last_modified-cases a = elim (Result-cases (remote_last_modified parse_time a)) [
    | inl (t, q) ↦ inl (t, (remote_last_modified_iff a t).0 q, q)
    | inr (e, q) ↦ inr (λ (t, d). err-ok (sym q ∙ (remote_last_modified_iff a t).1 d), (e, q))
  ]

  module _ (P : Prometheus) where
    -- After the answers a gauge that showed `before` shows `now`: the time of the last dated
    -- answer, or the same as before if no answer is dated.
    abbrev pub ShowsLast : List (Result Response) → Option P.Value → Option P.Value → Type 0
    ShowsLast answers before now =
        (All Undated answers × (now ≡ before))
        ⊎ ((t : Time) × IsLastDated answers t × (now ≡ some (P.float64 (unix t))))

    last_modified-ShowsLast :
        (v : Option P.Value) (answers : List (Result Response))
        → ShowsLast answers v (last_modified P v (map (remote_last_modified parse_time) answers))
    last_modified-ShowsLast v [] = inl (tt, refl)
    last_modified-ShowsLast v (a ∷ rest) =
        let shown : Result Time → Option P.Value =
          (λ r. elim r [ ok t ↦ some (P.float64 (unix t)) | err e ↦ v ]) in
        elim (last_modified-ShowsLast (shown (remote_last_modified parse_time a)) rest) [
          | inr (t, l, e) ↦ inr (
            t,
            record {
              before = a ∷ l.before;
              answer = l.answer;
              behind = l.behind;
              splits = ap (◌∷◌ a) l.splits;
              dated = l.dated;
              undated = l.undated;
            },
            e,
          )
          | inl (none_dated, e) ↦ elim (remote_last_modified-cases a) [
            | inl (t, d, q) ↦ inr (
              t,
              record {
                before = [];
                answer = a;
                behind = rest;
                splits = refl;
                dated = d;
                undated = none_dated;
              },
              e ∙ ap shown q,
            )
            | inr (u, (x, q)) ↦ inl ((u, none_dated), e ∙ ap shown q)
          ]
        ]

    -- what the gauge of the check shows behind a request
    abbrev shown_check : Result Time → Option P.Value
    shown_check r = some (P.float64 (elim r [ ok t ↦ pos 1 | err e ↦ pos 0 ]))

    last_ok-append :
        (v : Option P.Value) (rs : List (Result Time)) (r : Result Time)
        → last_ok P v (rs ++ r ∷ []) ≡ shown_check r
    last_ok-append v [] r = refl
    last_ok-append v (q ∷ rs) r = last_ok-append (shown_check q) rs r

    -- With a URL, over any answers to its HEAD requests the gauge of the remote time shows the time
    -- of the last dated one, with status 200 and a Last-Modified that parses, whatever came behind
    -- it, or what it showed before if none is dated. The gauge of the check is 1 if the last answer
    -- is dated, and 0 if it is not.
    pub tick_all-answers :
        (answers : List (Result Response)) (a : Result Response) (c : BinaryCollector P)
        → is_empty c.remote_url ≡ false
        → IsFresh P c
        → (let after = tick_all P (map (remote_last_modified parse_time) (answers ++ a ∷ [])) c in
            ShowsLast
              (answers ++ a ∷ [])
              (P.value_at c.remote_mtime visor)
              (P.value_at after.remote_mtime visor)
            × (((t : Time) × IsDated a t
                  × (P.value_at after.remote_ok visor ≡ some (P.float64 (pos 1))))
                ⊎ (Undated a × (P.value_at after.remote_ok visor ≡ some (P.float64 (pos 0))))))
    tick_all-answers answers a c u f =
        let read = remote_last_modified parse_time in
        let (shown, last) = tick_all-last_modified P (map read (answers ++ a ∷ [])) c u f in
        let v = P.value_at c.remote_ok visor in
        let check =
          last
          ∙ ap (last_ok P v) (map-append read answers (a ∷ []))
          ∙ last_ok-append v (map read answers) (read a) in
        (
          rw shown (last_modified-ShowsLast (P.value_at c.remote_mtime visor) (answers ++ a ∷ [])),
          elim (remote_last_modified-cases a) [
            | inl (t, d, q) ↦ inl (t, d, check ∙ ap shown_check q)
            | inr (n, (e, q)) ↦ inr (n, check ∙ ap shown_check q)
          ],
        )
