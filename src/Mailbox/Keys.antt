-- ===== src/Mailbox/Keys.antt =====
-- Keys of src/core/mailbox-store.ts that hold something of another type.
use gptqueue.Prelude.{Option, none, some, true, ◌≡◌, ◌↔◌, refl, arith}
use gptqueue.Mailbox.{Key, absent, holds, wrong_type, or_absent, is_wrong}

module _ {A : Type 0} where
  pub wrong_type_iff :
      (o : Option (Key A)) → (is_wrong (or_absent o) ≡ true) ↔ (o ≡ some wrong_type)
  wrong_type_iff none = ground arith
  wrong_type_iff (some absent) = ground arith
  wrong_type_iff (some (holds x)) = ground arith
  wrong_type_iff (some wrong_type) = (λ e. refl, λ e. refl)
