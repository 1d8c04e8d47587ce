-- ===== src/Prelude.antt =====
-- Names, tests, lists and machine words that every component of the loader uses.
mod Tests
mod Lists
mod Words
mod Assoc
mod Entries
mod Texts
mod Sublists
pub use Tests.*
pub use Lists.*
pub use Sublists.*
pub use Entries.*
unfoldable pub use Texts.{digits}
pub use Texts.{codes, concat}
unfoldable pub use Words.{add64, neg64, lt64, quot64, rem64, sub64}
pub use Words.{add64-lt, add64_assoc, add64_small, lt64_small, neg64_two, quot64_small, word_laws}
unfoldable pub use Assoc.{lookup, insert}
pub use Assoc.{lookup-insert, lookup-insert_self, values, length-insert}
pub use Prim.Native.Nat.{ℕ, zero, suc, ◌+◌, ◌-◌, ◌*◌, ◌/◌, ◌%◌, ◌^◌, ◌≤◌, ◌<◌, min}
pub use Prim.Native.String.{String}
pub use mathlib.Core.Path.{◌≡◌, refl, sym, ap, ap₂, ◌∙◌}
pub use mathlib.Core.Logic.{◌≢◌, ◌↔◌, ◌⊎◌, inl, inr}
pub use mathlib.Core.Bool.{Bool, true, false, not, ◌&&◌, ◌||◌}
pub use mathlib.Core.Option.{Option, none, some}
pub use mathlib.Core.List.{List, [], ◌∷◌, ◌++◌, map}
pub use native.Mathlib.Omega.{arith}
