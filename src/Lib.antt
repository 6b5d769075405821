-- ===== src/Lib.antt =====
-- sudowhat shows the command that sudo is about to run before the user authenticates. This
-- library models its Rust program: shared/escape_core, which renders a command line so that no
-- byte of it can deceive the reader, and linux/sudowhat_audit, the audit plugin that shows it on
-- Linux; and, of its Objective-C program, the gate that decides on macOS: the approval plugin's
-- `check`, the PAM module and the session guard, and the sheet that it raises, and the audit plugin's
-- twin for macOS.
--
-- How the parts interact: sudo calls the plugin's `open` with its arrays; display.rs looks up the
-- target user, the directory and the command in them and has escape_core render each value; the
-- block goes through tty.rs to the terminal. The C boundary of escape_core gives the same
-- renderings to the Objective-C plugins: PromptFormatter.m asks for each value twice, for its length
-- and for its text, and lays the texts out as the sheet. On macOS sudo opens sudowhat_audit.m, which
-- draws its block if the other two are our own, then runs the PAM module, which marks that it ran, and
-- then the approval plugin, which reads the mark and the installed PAM chain, and raises a dialog,
-- asks on the terminal, steps aside or refuses.
--
-- The files, with the code they model:
-- - Utf8, Hex: what escape_core uses of Rust's core library, `utf8_chunks` and `chars` as a
--   decoder of bytes into characters and invalid bytes, and the formats `{:X}` and `{:02X}`.
-- - Escape: shared/escape_core/src/lib.rs, `is_hidden`, `pieces`, `escape_bytes`. Escape/Reader is
--   the independent reader of escapes.
-- - Quote: `render_token`, `quote_bytes`. Quote/Shell is the independent lexer of a shell's words.
-- - Command: `last_path_component`, `command_tokens`, `full_command_line_bytes`.
-- - Color: the palette, `paint` and `render_command_line` in both variants. Color/Terminal is a
--   terminal that knows the palette's sequences only, Color/Cells and Color/LineCells describe
--   what it is to show.
-- - Ffi: `read_input`, `read_argv`, `write_result` and the five C functions.
-- - Audit/Context and Audit/Block: linux/sudowhat_audit/src/display.rs. Audit/Preview says what a
--   block is to say and reads it back.
-- - Audit/Tty: `write_tty` of linux/sudowhat_audit/src/tty.rs; Audit/Plugin: the entry points of
--   linux/sudowhat_audit/src/lib.rs.
-- - Audit/Export: the record that linux/sudowhat_audit/src/lib.rs exports.
-- - Gate/Lines and Gate/Chain: the lines of sudo_local and sudo.conf, and the shapes of the chain
--   (plugin/sudowhat_approval.m, pam/SudoConfChecker.m).
-- - Gate/Answer: the question `run this command?` and its loop. Gate/Host: what the system answers,
--   with shared/SessionGuard.m, and the calls of the gate as events.
-- - Gate/Confirm and Gate/Check: `sw_step_aside_allow`, `sw_confirm_run` and `sudowhat_check`.
--   Gate/Invoking: `sudowhat_open` and `sudowhat_close`. Gate/Pam: pam/pam_sudowhat.m.
-- - Sheet/Value and Sheet/Layout: plugin/PromptFormatter.m, the text of the Touch ID sheet. Sheet/Units
--   is Foundation's `NSString` as UTF-16, Sheet/Reader the reader who knows a sheet by its shape.
-- - Mac/Rows, Mac/Values and Mac/Open: plugin/sudowhat_audit.m, the rows and their colours, the values,
--   and `sudowhat_audit_open`. Mac/Tty: `sw_audit_write_tty`. Mac/Reader is the reader of its block, and
--   Mac/Searched says which PATH it is to disclose.
-- - Gate/ExecLine: `sw_format_exec_line`, the execute: line. Gate/ExecRead is its reader.
-- - Gate/Protocol: the independent protocol of the gate, a step relation on a process. Audit/Calls: the
--   one of the calls that write to a terminal. Gate/Seat and Gate/Loads say who sits at the console and
--   what a sudo.conf loads, Gate/Reply what spells an answer.
-- - Prelude: shared names, tests and list lemmas. Tests: the theorems at concrete inputs.
--
-- State and operations: a byte slice is a list of numbers below 256, a `&str` the list of its code
-- points; a function that appends to `&mut String` takes the text and gives the longer one back. A
-- C pointer is null or the memory behind it. The calls of libc are a record of what each answers,
-- and `write_tty` yields the calls it makes in order. The gate's `check` is in the same way a
-- function of what the system answers, and yields its verdict and its events in order.
--
-- Bounds and fuel: the loop of `write_tty` runs on fuel; as many rounds as there are bytes and
-- interrupted calls are enough, and `open` is given that many. The same fuel serves the loop of
-- `sw_audit_write_tty`, which goes round again where `write` takes nothing, so that it ends only if
-- `write` always takes something or fails. The loop of the question ends with the replies, behind
-- which is the end of input. Every other loop is structural. `parse_uid` saturates at the largest
-- `u64` as the code does.
--
-- Not modelled: the approval plugin's verify: line and its error messages, and the writes of its two
-- lines, each of which is one event of the gate; the literals that the macOS plugins export; the
-- signature verifier, which only calls the system; the scripts; that the Linux plugin's record lies in
-- writable memory, which is a matter of linking; reads outside an array, which the callers exclude. A
-- text of Foundation is its code points, or its UTF-16 units where the code counts or cuts them, and
-- `whitespaceCharacterSet` the characters its documentation names.
pub mod Prelude
pub mod Utf8
pub mod Hex
pub mod Escape
pub mod Quote
pub mod Command
pub mod Color
pub mod Audit
pub mod Ffi
pub mod Gate
pub mod Sheet
pub mod Mac
pub mod Tests
