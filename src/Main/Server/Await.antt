-- ===== src/Main/Server/Await.antt =====
-- How the last select of `run` ends, by the signals and the returns of the server in their order.
use vpub_exporter.Prelude.{
  true, false, Bool-cases, none, Option-cases, inl, inr, ◌⊎◌, List, [], ◌∷◌, ◌++◌, ◌≡◌, refl, ap,
  ◌∙◌, All,
}
use vpub_exporter.Errors.{Error, Result}
use vpub_exporter.Main.{server_error, signal}
use vpub_exporter.Main.Server.{
  Signal, is_stop, sent_error, ServerEvent, signalled, returned, crashed, await, waiting, crash,
  over,
}

-- An event that ends nothing: another signal, or a return of the server with no error or with the one
-- that says that it was closed.
abbrev pub IsQuiet : ServerEvent → Type 0
IsQuiet (signalled s) = is_stop s ≡ false
IsQuiet (returned x) = sent_error x ≡ none
IsQuiet crashed = ⊥

-- The first event that is not quiet is a stop signal.
pub record IsStopped (events : List ServerEvent) : Type 0 where
  pub before : List ServerEvent
  pub stop : Signal
  pub behind : List ServerEvent
  pub splits : events ≡ before ++ signalled stop ∷ behind
  pub stops : is_stop stop ≡ true
  pub quiet : All IsQuiet before

-- The first event that is not quiet is a panic of a goroutine.
pub record IsCrashed (events : List ServerEvent) : Type 0 where
  pub before : List ServerEvent
  pub behind : List ServerEvent
  pub splits : events ≡ before ++ crashed ∷ behind
  pub quiet : All IsQuiet before

await-skip :
    (shutdown : Result (Unit {0})) (e : ServerEvent) (es : List ServerEvent)
    → IsQuiet e
    → await shutdown (e ∷ es) ≡ await shutdown es
unfolding await
await-skip shutdown (signalled s) es q = rw q refl
await-skip shutdown (returned x) es q = rw (q, await) refl
await-skip shutdown crashed es q = absurd q

pub await-quiet :
    (shutdown : Result (Unit {0})) (es : List ServerEvent)
    → All IsQuiet es
    → await shutdown es ≡ waiting
await-quiet shutdown [] q = unfold await in refl
await-quiet shutdown (e ∷ es) q = await-skip shutdown e es q.0 ∙ await-quiet shutdown es q.1

pub await-stopped :
    (shutdown : Result (Unit {0})) (before : List ServerEvent) (s : Signal)
    (behind : List ServerEvent)
    → is_stop s ≡ true
    → All IsQuiet before
    → await shutdown (before ++ signalled s ∷ behind) ≡ over (signal shutdown)
unfolding await
await-stopped shutdown [] s behind stops q = rw stops refl
await-stopped shutdown (e ∷ es) s behind stops q =
    await-skip shutdown e (es ++ signalled s ∷ behind) q.0
    ∙ await-stopped shutdown es s behind stops q.1

pub await-crashed :
    (shutdown : Result (Unit {0})) (before behind : List ServerEvent)
    → All IsQuiet before
    → await shutdown (before ++ crashed ∷ behind) ≡ crash
unfolding await
await-crashed shutdown [] behind q = refl
await-crashed shutdown (e ∷ es) behind q =
    await-skip shutdown e (es ++ crashed ∷ behind) q.0 ∙ await-crashed shutdown es behind q.1

-- How a wait stands: it goes on over quiet events, or a stop signal, a panic or an error of the
-- server ended it.
unfoldable pub AwaitCases : Result (Unit {0}) → List ServerEvent → Type 0
AwaitCases shutdown es =
    All IsQuiet es
    ⊎ (IsStopped es ⊎ (IsCrashed es ⊎ ((e : Error) × (await shutdown es ≡ over (server_error e)))))

cases-later :
    (shutdown : Result (Unit {0})) (e : ServerEvent) (es : List ServerEvent)
    → IsQuiet e
    → AwaitCases shutdown es
    → AwaitCases shutdown (e ∷ es)
unfolding AwaitCases
cases-later shutdown e es q (inl rest) = inl (q, rest)
cases-later shutdown e es q (inr (inl w)) = inr (
    inl (record {
      before = e ∷ w.before;
      stop = w.stop;
      behind = w.behind;
      splits = ap (◌∷◌ e) w.splits;
      stops = w.stops;
      quiet = (q, w.quiet);
    }))
cases-later shutdown e es q (inr (inr (inl w))) = inr (
    inr (
      inl (record {
        before = e ∷ w.before;
        behind = w.behind;
        splits = ap (◌∷◌ e) w.splits;
        quiet = (q, w.quiet);
      })))
cases-later shutdown e es q (inr (inr (inr (x, h)))) =
    inr (inr (inr (x, await-skip shutdown e es q ∙ h)))

pub await-cases : (shutdown : Result (Unit {0})) (es : List ServerEvent) → AwaitCases shutdown es
unfolding AwaitCases await
await-cases shutdown [] = inl tt
await-cases shutdown (crashed ∷ es) =
    inr (inr (inl (record { before = []; behind = es; splits = refl; quiet = tt })))
await-cases shutdown (signalled s ∷ es) = elim (Bool-cases (is_stop s)) [
  | inl e ↦
      inr
        (inl (record { before = []; stop = s; behind = es; splits = refl; stops = e; quiet = tt }))
  | inr e ↦ cases-later shutdown (signalled s) es e (await-cases shutdown es)
]
await-cases shutdown (returned x ∷ es) = elim (Option-cases (sent_error x)) [
  | inl e ↦ cases-later shutdown (returned x) es e (await-cases shutdown es)
  | inr (e, h) ↦ inr (inr (inr (e, rw (h, await) refl)))
]
