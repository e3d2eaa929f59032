-- ===== src/Tests/OnClients.antt =====
-- The clients of the library, with the codec that reads what it writes.
use phronesis.Base.Decimal.{print_ℕ, print_ℤ}
use phronesis.Trace.Ring.Refine.{log_append}
use phronesis.Supervisor.Lifecycle.Acquire.{reap_at}
use phronesis.Supervisor.Slots.{load_agent}
use phronesis.ActionLog.Escape.{hex_digit}
use phronesis.Supervisor.Ids.{valid_id}
use phronesis.Supervisor.Lifecycle.Status.{supervisor_status}
use phronesis.Wire.Agents.{agent_id_to_hex}
use phronesis.Policy.Workspace.{path_under_workspace, is_clean_abs_path}
use phronesis.Policy.Sensitive.{
  path_is_sensitive, sensitive_path, sensitive_base, base_name, sensitive_component,
  sensitive_extension,
}
use phronesis.Policy.Eval.{eval_path}
use phronesis.Base.{
  ℕ, ◌≡◌, refl, Bool, true, Option, none, some, List, [], ◌∷◌, arith, length, take, ltb,
  if◌then◌else◌,
}
use phronesis.Base.Int.{pos}
use phronesis.Base.CString.{Bytes, CString, codes, strcmp_eq, starts_with, strstr, snprintf_s}
use phronesis.Trace.Event.{copy_trunc}
use phronesis.Trace.Ring.{clear, next_seq}
use phronesis.Trace.Json.Text.{Exports, json_text}
use phronesis.Trace.Ring.Calls.{log_run, log_call}
use phronesis.Supervisor.Types.{Supervisor, zero_slot, put_slot, running}
use phronesis.Supervisor.Open.{new_supervisor}
use phronesis.Wire.Events.{seat_events}
use phronesis.Wire.Checks.{
  Codec, read_run, max_body, check_seat, check_path, check_risk, secret_export,
}
use phronesis.Wire.Shell.{ShellCodec}
use phronesis.Wire.Shell.ByPacks.{IsAllowed}
use phronesis.Wire.Message.{written, not_written, write_msg, write_flat}
use phronesis.Wire.Emit.{with_denials}
use phronesis.Clients.Message.{write_encoded, write_exported, write_loops-deliver}
use phronesis.Clients.Encode.{asked}
use phronesis.Clients.Rust.{
  DecisionRead, rust_agent, ljos_phronesis_check_shell, ljos_phronesis_read_decision,
}
use phronesis.Clients.Rust.Allowed.{ljos_phronesis_check_shell-IsAllowed}
use phronesis.Clients.Rust.Reason.{IsCut, ljos_phronesis_read_decision-IsCut}
use phronesis.Trace.Json.{Memory, size32}
use phronesis.Clients.Export.{Sink, given_words, export_agent, export_main}
use phronesis.Clients.Playground.{
  Page, Check, of_emitted, pd_check_seat, pd_check_path, pd_check_risk, pd_take_trace_json,
}
use phronesis.Clients.Playground.Answers.{Reads, pd_read_decision-checks}
use phronesis.Clients.Playground.{pd_check_shell}
use phronesis.Clients.Playground.Exported.{pd_check_shell-export_main}
use phronesis.Clients.Playground.Traced.{checked, check_text, pd_take_trace_json-check}
use phronesis.Tests.Machine.{quiet, empty_world}
use phronesis.Tests.OnPacks.{system, interpreter, two_packs}
use phronesis.Tests.Codec.{
  two_fields, decision_writer, two_fields-ReadsFields, read_shell, shell_writer,
  read_shell-ReadsShell, text_bytes, all_bytes, read_texts, in_buffer, in_buffer-Grows,
}

-- One agent of the given id runs in the workspace /w.
abbrev seated_as : Bytes → Supervisor
seated_as id =
    put_slot
      (new_supervisor
        (record { state_dir = codes "/s"; runtime_dir = codes "/r"; action_log = codes "/s/l" })
        (codes "/r/agents"))
      0 (record zero_slot { in_use = true; id = id; state = running; workspace = codes "/w" })

abbrev seated : Supervisor
seated = seated_as (codes "00000000000000000000000000000001")

abbrev shells : ShellCodec
shells = record {
  packs = record {
    write_view = λ view. some (codes "view");
    write_denial = λ answer. none;
    read_fields = two_fields;
  };
  read_shell = read_shell;
  read_audio = λ body. none;
  read_reload = λ body. none;
}

abbrev memory : ℕ → Bool
memory n = true

abbrev words : List CString
words = some (codes "ls") ∷ []

ljos_phronesis_check_shell-IsAllowed_example :
    IsAllowed system interpreter
      (with_denials memory decision_writer shells).packs
      quiet
      seated
      (asked rust_agent (some (codes "/w/src")) words)
      empty_world
      two_packs
unfolding ljos_phronesis_check_shell strcmp_eq eval_path path_is_sensitive sensitive_path
    sensitive_base base_name starts_with sensitive_component strstr sensitive_extension
    path_under_workspace agent_id_to_hex supervisor_status valid_id hex_digit load_agent
    new_supervisor reap_at is_clean_abs_path text_bytes all_bytes read_texts
ljos_phronesis_check_shell-IsAllowed_example =
    ljos_phronesis_check_shell-IsAllowed system interpreter shells memory decision_writer
      shell_writer two_fields-ReadsFields read_shell-ReadsShell quiet seated (some (codes "/w/src"))
      words empty_world two_packs (65 ∷ []) (omega arith) (omega arith) refl (20, refl)

write_loops-deliver_example :
    (write_encoded memory (in_buffer (codes "message")) ≡ written (codes "message"))
    × (write_exported memory (in_buffer (codes "message")) ≡ written (codes "message"))
    × (write_flat memory (in_buffer (codes "message")) ≡ written (codes "message"))
    × (write_msg memory (in_buffer (codes "message")) ≡ (
        if ltb max_body (length (codes "message")) then not_written else written (codes "message")))
write_loops-deliver_example =
    write_loops-deliver memory (in_buffer (codes "message"))
      (in_buffer-Grows memory (codes "message")) (codes "message") refl (λ d h. refl)

abbrev sink : Sink
sink = record { opens = λ path. true; fwrite = length; stored = length }

abbrev long_reason : DecisionRead
long_reason = record {
  decision = 0;
  code = 5;
  reason_len = pos 8;
  reason = some (codes "too long");
}

abbrev read_reason : Bytes → Option DecisionRead
read_reason body = some long_reason

ljos_phronesis_read_decision-IsCut_example :
    IsCut 4 (codes "too long") (ljos_phronesis_read_decision read_reason (codes "m") 4).reason
ljos_phronesis_read_decision-IsCut_example =
    ljos_phronesis_read_decision-IsCut read_reason (codes "m") 4 long_reason (codes "too long")
      (λ e. cc) refl refl refl (omega arith)

abbrev codec : Codec
codec = record {
  read_seat = λ body. some (record { agent = some rust_agent; action = read_run });
  read_model = λ body. none;
  read_path_check = λ body. none;
  read_risk = λ body. some (record { agent = none; action = secret_export });
}

abbrev page : Page ℕ ℕ
page = record {
  held = record { supervisor = seated; world = empty_world; packs = two_packs };
  trace = clear;
}

pd_read_decision-checks_example :
    let R = Reads two_fields in
    let body = codes "m" in
    let env = two_packs.getenv in
    R
      (pd_check_seat quiet codec memory decision_writer body page).0
      (check_seat quiet env codec seated (some body) empty_world)
    × R
        (pd_check_path quiet codec memory decision_writer body page).0
        (check_path quiet env codec seated (some body) empty_world)
    × R
        (pd_check_risk quiet codec memory decision_writer body page).0
        (check_risk env codec seated (some body) empty_world)
pd_read_decision-checks_example =
    pd_read_decision-checks quiet codec memory decision_writer two_fields two_fields-ReadsFields
      (codes "m") page

abbrev seat_check : Check ℕ ℕ
seat_check =
    of_emitted quiet codec memory decision_writer (λ env. check_seat quiet env codec)
      (λ env. seat_events codec)

abbrev wasm : Memory
wasm = record { width = size32; realloc = λ n k. true }

pd_take_trace_json-check_example :
    Exports wasm
      (check_text wasm seat_check (codes "m") page)
      (pd_take_trace_json wasm (checked wasm seat_check (codes "m") page)).0
    × Exports wasm
        (json_text [])
        (pd_take_trace_json wasm
          (pd_take_trace_json wasm (checked wasm seat_check (codes "m") page)).1).0
unfolding json_text log_run log_call log_append snprintf_s print_ℕ next_seq copy_trunc print_ℤ
    of_emitted seat_events
pd_take_trace_json-check_example =
    pd_take_trace_json-check wasm seat_check (codes "m") page (λ e. cc) (omega arith)

abbrev exported_bytes : Bytes
exported_bytes = 1 ∷ 2 ∷ 48 ∷ 120 ∷ 48 ∷ 116 ∷ 115 ∷ 100 ∷ 0 ∷ 109 ∷ 116 ∷ 0 ∷ []

abbrev export_page : Page ℕ ℕ
export_page = record page {
  held = record {
    supervisor = seated_as (codes "00000000000000010000000000000002");
    world = empty_world;
    packs = two_packs;
  };
}

pd_check_shell-export_main_example :
    IsAllowed system interpreter
      (with_denials memory decision_writer shells).packs
      quiet
      export_page.held.supervisor
      (asked export_agent (some (codes "/w/src")) (given_words (take 64 (codes "ls" ∷ []))))
      empty_world
      two_packs
unfolding pd_check_shell export_main ljos_phronesis_check_shell strcmp_eq eval_path
    path_is_sensitive sensitive_path sensitive_base base_name starts_with sensitive_component strstr
    sensitive_extension path_under_workspace agent_id_to_hex supervisor_status valid_id hex_digit
    load_agent new_supervisor reap_at is_clean_abs_path text_bytes all_bytes read_texts
pd_check_shell-export_main_example =
    pd_check_shell-export_main quiet system interpreter shells memory decision_writer (λ body h. [])
      two_fields-ReadsFields sink shell_writer read_shell-ReadsShell (codes "m.bin")
      (codes "/w/src") (codes "ls") [] (some (codes "m.bin")) exported_bytes export_page (65 ∷ [])
      (omega arith) (omega arith) refl (λ m e. omega arith) refl (20, refl)
