-- ===== src/Config/Args/Written.antt =====
-- Command lines as they are written, and the flags that internal/config/config.go reads from them.
use vpub_exporter.Prelude.{
  Bool, true, false, ◌&&◌, ◌||◌, Option, none, some, Option-cases, inl, inr, pos, List, [], ◌∷◌,
  ◌++◌, ◌≡◌, refl, ◌∙◌, if◌then◌else◌, ℤ,
}
use vpub_exporter.Text.{Bytes, codes, bytes_eq}
use vpub_exporter.Errors.{Result, ok, err, failure, ◌>>=◌}
use vpub_exporter.Config.{Flags}
use vpub_exporter.Config.Args.{
  FlagName, listen_addr, service_name, scrape_interval, shutdown_timeout, name_of, default_flags,
  set_flag, parse_from, parse_args,
}

-- A flag with its value, with one dash or two, in one argument with "=" or in two.
pub record Written : Type 0 where
  pub flag : FlagName
  pub value : Bytes
  pub two_dashes : Bool
  pub joined : Bool

abbrev pub dashed : Bool → Bytes → Bytes
dashed true s = b'-' ∷ b'-' ∷ s
dashed false s = b'-' ∷ s

abbrev pub args_of : Written → List Bytes
args_of w =
    if w.joined
    then dashed w.two_dashes (name_of w.flag ++ b'=' ∷ w.value) ∷ []
    else dashed w.two_dashes (name_of w.flag) ∷ w.value ∷ []

abbrev pub command_line : List Written → List Bytes
command_line [] = []
command_line (w ∷ ws) = args_of w ++ command_line ws

module _ (parse_duration : Bytes → Option ℤ) where
  -- The values one after the other; a duration that does not parse is an error.
  abbrev pub set_all : List Written → Flags → Result Flags
  set_all [] f = ok f
  set_all (w ∷ ws) f = set_flag parse_duration w.flag w.value f >>= λ f'. set_all ws f'

  parse_from-args_of :
      (n : FlagName) (two_dashes joined : Bool) (v : Bytes) (rest : List Bytes) (f : Flags)
      → let w : Written = record {
        flag = n;
        value = v;
        two_dashes = two_dashes;
        joined = joined;
      } in
        parse_from parse_duration (args_of w ++ rest) none f
        ≡ (set_flag parse_duration n v f >>= λ f'. parse_from parse_duration rest none f')
  unfolding parse_from
  parse_from-args_of listen_addr true true v rest f = refl
  parse_from-args_of listen_addr true false v rest f = refl
  parse_from-args_of listen_addr false true v rest f = refl
  parse_from-args_of listen_addr false false v rest f = refl
  parse_from-args_of service_name true true v rest f = refl
  parse_from-args_of service_name true false v rest f = refl
  parse_from-args_of service_name false true v rest f = refl
  parse_from-args_of service_name false false v rest f = refl
  parse_from-args_of scrape_interval true true v rest f = refl
  parse_from-args_of scrape_interval true false v rest f = refl
  parse_from-args_of scrape_interval false true v rest f = refl
  parse_from-args_of scrape_interval false false v rest f = refl
  parse_from-args_of shutdown_timeout true true v rest f = refl
  parse_from-args_of shutdown_timeout true false v rest f = refl
  parse_from-args_of shutdown_timeout false true v rest f = refl
  parse_from-args_of shutdown_timeout false false v rest f = refl

  bind-same :
      (m : Result Flags) (h k : Flags → Result Flags)
      → ((f : Flags) → h f ≡ k f)
      → (m >>= h) ≡ (m >>= k)
  bind-same (ok f) h k e = e f
  bind-same (err x) h k e = refl

  parse_from-command_line :
      (ws : List Written) (f : Flags)
      → parse_from parse_duration (command_line ws) none f ≡ set_all ws f
  unfolding parse_from
  parse_from-command_line [] f = refl
  parse_from-command_line (w ∷ ws) f =
      parse_from-args_of w.flag w.two_dashes w.joined w.value (command_line ws) f
      ∙ bind-same (set_flag parse_duration w.flag w.value f) _ _ (parse_from-command_line ws)

  -- The text behind the last use of a name.
  abbrev pub last_text : Bytes → List Written → Bytes → Bytes
  last_text key [] v = v
  last_text key (w ∷ ws) v = last_text key ws (if bytes_eq (name_of w.flag) key then w.value else v)

  -- The duration behind the last use of a name.
  abbrev pub last_duration : Bytes → List Written → ℤ → ℤ
  last_duration key [] d = d
  last_duration key (w ∷ ws) d = last_duration key ws (
      if bytes_eq (name_of w.flag) key
      then elim (parse_duration w.value) [ some x ↦ x | none ↦ d ]
      else d)

  abbrev pub is_duration : Bytes → Bool
  is_duration v = elim (parse_duration v) [ some d ↦ true | none ↦ false ]

  -- Each value of a flag for a duration is one.
  abbrev pub durations_ok : List Written → Bool
  durations_ok [] = true
  durations_ok (w ∷ ws) =
      let rest = durations_ok ws in
      if bytes_eq (name_of w.flag) (codes "scrape-interval")
        || bytes_eq (name_of w.flag) (codes "shutdown-timeout")
      then is_duration w.value && rest
      else rest

  -- The last values of the four flags over some values.
  abbrev pub last_flags : List Written → Flags → Flags
  last_flags ws f = record {
    listen_addr = last_text (codes "listen-addr") ws f.listen_addr;
    service_name = last_text (codes "service-name") ws f.service_name;
    scrape_interval = last_duration (codes "scrape-interval") ws f.scrape_interval;
    shutdown_timeout = last_duration (codes "shutdown-timeout") ws f.shutdown_timeout;
  }

  IsLast : List Written → Type 0
  IsLast ws =
      (f : Flags)
      → set_all ws f
        ≡ (if durations_ok ws then ok (last_flags ws f) else err (failure (codes "invalid value")))

  set_one-IsLast :
      (n : FlagName) (v : Bytes) (two_dashes joined : Bool) (ws : List Written)
      → IsLast ws
      → IsLast (record { flag = n; value = v; two_dashes = two_dashes; joined = joined } ∷ ws)
  unfolding IsLast set_flag
  set_one-IsLast listen_addr v d j ws h f = h (record f { listen_addr = v })
  set_one-IsLast service_name v d j ws h f = h (record f { service_name = v })
  set_one-IsLast scrape_interval v d j ws h f = elim (Option-cases (parse_duration v)) [
    | inl e ↦ rw (e, set_flag, is_duration) refl
    | inr (x, e) ↦ rw (e, set_flag, is_duration) (h (record f { scrape_interval = x }))
  ]
  set_one-IsLast shutdown_timeout v d j ws h f = elim (Option-cases (parse_duration v)) [
    | inl e ↦ rw (e, set_flag, is_duration) refl
    | inr (x, e) ↦ rw (e, set_flag, is_duration) (h (record f { shutdown_timeout = x }))
  ]

  set_all-IsLast : (ws : List Written) → IsLast ws
  unfolding IsLast
  set_all-IsLast [] f = refl
  set_all-IsLast (w ∷ ws) f =
      set_one-IsLast w.flag w.value w.two_dashes w.joined ws (set_all-IsLast ws) f

  -- A command line of flags, each with one dash or two and with its value behind "=" or as the next
  -- argument: if each value of -scrape-interval and -shutdown-timeout is a duration, the
  -- configuration has for each of -listen-addr, -service-name, -scrape-interval and
  -- -shutdown-timeout the last value that the line gives, or else ":8002",
  -- "validator-publisher.service", 30 seconds and 10 seconds; if one is not, the result is an error.
  -- Any bytes at all may be the value of a text flag, also a dash or an "=".
  pub parse_args-command_line :
      (ws : List Written)
      → parse_args parse_duration (command_line ws) ≡ (
          if durations_ok ws
          then ok (
              last_flags ws (record {
                listen_addr = codes ":8002";
                service_name = codes "validator-publisher.service";
                scrape_interval = pos 30000000000;
                shutdown_timeout = pos 10000000000;
              }))
          else err (failure (codes "invalid value")))
  unfolding parse_args IsLast
  parse_args-command_line ws =
      parse_from-command_line ws default_flags ∙ set_all-IsLast ws default_flags
