-- ===== src/Platform/Library.antt =====
-- The library functions that the controllers call.
use kg.Base.{Bool, List, Option, Result, Text}
use kg.Api.{Labels, Condition, HostSelector}
use kg.Platform.{Error}

pub record Library : Type 0 where
  -- `meta.SetStatusCondition`
  pub set_status_condition : List Condition → Condition → List Condition
  -- `meta.FindStatusCondition`
  pub find_status_condition : List Condition → Text → Option Condition
  -- `controllerutil.ContainsFinalizer`, `AddFinalizer` and `RemoveFinalizer`
  pub contains_finalizer : List Text → Text → Bool
  pub add_finalizer : List Text → Text → List Text
  pub remove_finalizer : List Text → Text → List Text
  -- `metav1.LabelSelectorAsSelector`, and `Matches` of its result
  pub compile_selector : HostSelector → Result Error (Labels → Bool)
  -- the hexadecimal SHA-256 of `crypto/sha256` and `encoding/hex`
  pub checksum : Text → Text
