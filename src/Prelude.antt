-- ===== src/Prelude.antt =====
-- The names that the modules share: those of the libraries, passed on, and those of the children.
pub mod Tests
pub mod Lists
pub mod Words
pub mod Files
pub mod Strings
pub use Tests.*
pub use Lists.*
pub use Words.*
pub use Files.{
  zeros, get_or-zeros, get_or_beyond, length-pwrite, get_or-pwrite_in, get_or-pwrite_out,
}
unfoldable pub use Files.{pwrite}
pub use Strings.{codes, streq_iff, streq_refl, clip, has_suffix-append}
unfoldable pub use Strings.{streq, has_suffix}
pub use Prim.Native.Nat.{ℕ, zero, suc, ◌+◌, ◌-◌, ◌*◌, ◌/◌, ◌%◌, ◌^◌, ◌≤◌, ◌<◌, min}
pub use mathlib.Core.Path.{◌≡◌, refl, sym, ap, ap₂, ◌∙◌}
pub use mathlib.Core.Logic.{◌≢◌, ◌↔◌, ◌⊎◌, inl, inr}
pub use mathlib.Core.Bool.{Bool, true, false, ◌&&◌, ◌||◌, not}
pub use mathlib.Core.Option.{Option, none, some}
pub use mathlib.Core.List.{List, [], ◌∷◌, ◌++◌}
pub use native.Mathlib.Omega.{arith}
