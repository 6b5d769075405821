-- ===== src/Prelude.antt =====
-- Shared notation: the libraries' names that the other modules use, texts and bytes as lists of
-- native numbers, Boolean tests, list lemmas and a rule set for `simp`.
mod Tests
mod Lists
pub mod Index
pub use Tests.*
pub use Lists.*
unfoldable pub use Lists.{position, rposition}
pub use Prim.Native.Nat.{ℕ, zero, suc, ◌+◌, ◌-◌, ◌*◌, ◌/◌, ◌%◌, ◌^◌, ◌≤◌, ◌<◌}
pub use mathlib.Core.Path.{◌≡◌, refl, sym, ap, ap₂, ◌∙◌}
pub use mathlib.Core.Logic.{◌≢◌, ◌↔◌, ◌⊎◌, inl, inr}
pub use mathlib.Core.Bool.{Bool, true, false, not, ◌&&◌, ◌||◌}
pub use mathlib.Core.Option.{Option, none, some}
pub use mathlib.Core.List.{List, [], ◌∷◌, ◌++◌, map, append-nil, append_assoc, map-append}
pub use native.Mathlib.Omega.{arith}

-- Appending, as `simp` normalises it.
pub ruleset list_laws = (append-nil, append_assoc, map-append)
