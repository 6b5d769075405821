-- ===== src/Audit/Export.antt =====
-- The record that linux/sudowhat_audit/src/lib.rs exports to sudo, and what its hooks answer.
use mathlib.Core.Option
use sudowhat.Audit.Tty.{System, Call}
use sudowhat.Audit.Delivery.{Quiet}
use sudowhat.Audit.Open.{audit_open-Ends}
use sudowhat.Audit.Plugin.{
  CArray, api_version_major, audit_open, audit_close, audit_accept, audit_reject, audit_error,
}
use sudowhat.Prelude.{ℤ, pos, ◌≡◌, refl, ap, some, none, Bytes, Text, Option, ℕ, List, ◌+◌, ◌*◌}

-- `SUDO_AUDIT_PLUGIN` and `SUDO_API_VERSION`, whose two halves do not overlap.
abbrev pub audit_plugin_type : ℕ
audit_plugin_type = 3

abbrev pub api_version_minor : ℕ
api_version_minor = 18

abbrev pub api_version : ℕ
api_version = api_version_major * 65536 + api_version_minor

-- The hooks' types; `open` yields its calls of libc beside its result.
abbrev pub OpenFn : Type 0
OpenFn = ℕ → CArray → CArray → ℤ → CArray → CArray → ℤ × Option (List Call)

abbrev pub CloseFn : Type 0
CloseFn = ℤ → ℤ → Unit {0}

abbrev pub AcceptFn : Type 0
AcceptFn = Option Bytes → ℕ → CArray → CArray → CArray → ℤ

abbrev pub RejectErrorFn : Type 0
RejectErrorFn = Option Bytes → ℕ → Option Bytes → CArray → ℤ

-- `AuditPlugin`. The slots that are never filled or never called are pointers of no known type.
pub record AuditPlugin : Type 0 where
  pub type_ : ℕ
  pub version : ℕ
  pub open_ : Option OpenFn
  pub close : Option CloseFn
  pub accept : Option AcceptFn
  pub reject : Option RejectErrorFn
  pub error : Option RejectErrorFn
  pub show_version : Option ℕ
  pub register_hooks : Option ℕ
  pub deregister_hooks : Option ℕ
  pub event_alloc : Option ℕ

-- `sudowhat_audit_plugin`, for what the build sets and a system.
abbrev pub audit_plugin : Option Text → System → ℕ → AuditPlugin
audit_plugin display sys interrupts = record {
  type_ = audit_plugin_type;
  version = api_version;
  open_ = some (audit_open display sys interrupts);
  close = some audit_close;
  accept = some audit_accept;
  reject = some audit_reject;
  error = some audit_error;
  show_version = none;
  register_hooks = none;
  deregister_hooks = none;
  event_alloc = none;
}

-- What sudo does to the record it has loaded: it fills in its own allocator.
abbrev pub fill_event_alloc : ℕ → AuditPlugin → AuditPlugin
fill_event_alloc alloc p = record p { event_alloc = some alloc }

-- The hooks of the exported record never stop sudo: `open`, called with the version that the record
-- itself declares, answers 1 whatever the arrays are, and so do `accept`, `reject` and `error`,
-- also where sudo has filled in its allocator. Interruptions end at some call.
pub audit_plugin-answers :
    (display : Option Text) (sys : System) (quiet alloc : ℕ) (settings user_info : CArray)
    (optind : ℤ) (submit_argv submit_envp : CArray) (name msg : Option Bytes) (type_ : ℕ)
    (command_info run_argv run_envp : CArray)
    → Quiet sys quiet
    → let p = fill_event_alloc alloc (audit_plugin display sys quiet) in
      (Option.map
          (λ open_fn. (open_fn (p.version) settings user_info optind submit_argv submit_envp).0)
          (p.open_)
        ≡ some (pos 1))
      × (Option.map (λ accept. accept name type_ command_info run_argv run_envp) (p.accept)
          ≡ some (pos 1))
      × (Option.map (λ reject. reject name type_ msg command_info) (p.reject) ≡ some (pos 1))
      × (Option.map (λ error. error name type_ msg command_info) (p.error) ≡ some (pos 1))
audit_plugin-answers display sys quiet alloc settings user_info optind submit_argv submit_envp name
      msg type_ command_info run_argv run_envp q =
    (
      ap some
          (audit_open-Ends display sys quiet api_version settings user_info optind submit_argv
            submit_envp q).0,
      refl,
      refl,
      refl,
    )
