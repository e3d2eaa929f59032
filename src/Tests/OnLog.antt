-- ===== src/Tests/OnLog.antt =====
-- The action log on concrete records.
use phronesis.Base.Decimal.{print_ℕ}
use phronesis.Base.{ℕ, ◌^◌, ◌≡◌, refl, true, false, ◌⊎◌, some, take, arith}
use phronesis.Base.CString.{Bytes, codes, snprintf_s}
use phronesis.Policy.Types.{ok, err_inval}
use phronesis.World.{World}
use phronesis.World.Files.{content, fopen_a, write_close}
use phronesis.ActionLog.Escape.{json_escape, escaped, bounded, json_escape-bounded, escaped_byte}
use phronesis.ActionLog.Records.{action_log_append, append_record}
use phronesis.ActionLog.Last.{action_log_last, store_last}
use phronesis.ActionLog.Last.Laws.{ends_line}
use phronesis.ActionLog.Append.{
  IsAppended, accepted, record_text, action_log_append-ok, action_log_append-prefix,
}
use phronesis.ActionLog.ReadBack.{body, action_log_last-append}
use phronesis.Tests.Machine.{quiet, empty_world}

abbrev log_path : Bytes
log_path = codes "/s/log/actions.jsonl"

abbrev after_append : World
after_append =
    (action_log_append quiet (some log_path) (some (codes "a1")) (some (codes "policy"))
      (some (codes "say \"no\"")) empty_world).1

json_escape-bounded_example : json_escape (codes "a\"b") 16 ≡ bounded 16 (escaped (codes "a\"b"))
json_escape-bounded_example = json_escape-bounded (codes "a\"b") 16

action_log_append-ok_example :
    IsAppended log_path
      (record_text quiet empty_world
        (some (codes "a1"))
        (some (codes "policy"))
        (some (codes "say \"no\"")))
      empty_world
      after_append
unfolding action_log_append json_escape append_record fopen_a write_close
action_log_append-ok_example =
    action_log_append-ok quiet log_path (some (codes "a1")) (some (codes "policy"))
      (some (codes "say \"no\"")) empty_world after_append refl

action_log_append-prefix_example :
    ((accepted (some (codes "a1")) (some (codes "policy")) (some (codes "say \"no\"")) ≡ false)
      × (action_log_append quiet
            (some log_path)
            (some (codes "a1"))
            (some (codes "policy"))
            (some (codes "say \"no\""))
            empty_world
          ≡ (err_inval, empty_world)))
    ⊎ ((accepted (some (codes "a1")) (some (codes "policy")) (some (codes "say \"no\"")) ≡ true)
        × (n : ℕ) × IsAppended log_path
            (take n (
              record_text quiet empty_world
                (some (codes "a1"))
                (some (codes "policy"))
                (some (codes "say \"no\""))))
            empty_world
            after_append)
action_log_append-prefix_example =
    action_log_append-prefix quiet log_path (some (codes "a1")) (some (codes "policy"))
      (some (codes "say \"no\"")) empty_world

action_log_last-append_example :
    ((action_log_last quiet (some log_path) 200 after_append).0 ≡ ok)
    × ((action_log_last quiet (some log_path) 200 after_append).1
        ≡ body quiet empty_world
            (some (codes "a1"))
            (some (codes "policy"))
            (some (codes "say \"no\"")))
    × (ends_line (content (after_append.node log_path)) ≡ true)
unfolding action_log_append json_escape append_record fopen_a write_close ends_line print_ℕ escaped
    escaped_byte
action_log_last-append_example =
    action_log_last-append quiet log_path (some (codes "a1")) (some (codes "policy"))
      (some (codes "say \"no\"")) 200 empty_world after_append refl refl (omega arith) (omega arith)
      (omega arith) refl

-- A buffer of 2 GiB has a negative size as an int: the action is stored, and the error returned.
large_buffer : store_last (codes "x") (2 ^ 31) ≡ (err_inval, codes "x")
unfolding store_last snprintf_s
large_buffer = refl
