-- ===== src/Vm/Options.antt =====
-- What VM::set_option of lib/zvmone/vm.cpp leaves behind.
use Prim.Native.String.{String}
use zvmone.Prelude.{Bool, Option, refl, ◌≡◌, ◌⊎◌, Bool-cases, inl, inr}
use zvmone.Tracing.{Stream}
use zvmone.Vm.{Vm, set_option_success, text_of, same_text, set_option}

-- Whatever name and value are given, null pointers included, an option for which the result is not
-- success leaves the VM and the stream of the tracers as they were.
pub set_option-unchanged :
    (supported : Bool) (name value : Option String) (vm : Vm) (s : Stream)
    → ((set_option supported name value vm s).0 ≡ set_option_success)
      ⊎ (((set_option supported name value vm s).1 ≡ vm)
          × ((set_option supported name value vm s).2 ≡ s))
unfolding set_option
set_option-unchanged supported name value vm s =
    elim (Bool-cases (same_text (text_of name) "advanced")) [
      | inl e ↦ rw e (inl refl)
      | inr n1 ↦ rw n1 (elim (Bool-cases (same_text (text_of name) "cgoto")) [
        | inl e ↦ rw e (elim (Bool-cases supported) [
          | inl y ↦ rw y (elim (Bool-cases (same_text (text_of value) "no")) [
            | inl v ↦ rw v (inl refl)
            | inr v ↦ rw v (inr (refl, refl))
          ])
          | inr absent ↦ rw absent (inr (refl, refl))
        ])
        | inr n2 ↦ rw n2 (elim (Bool-cases (same_text (text_of name) "trace")) [
          | inl e ↦ rw e (inl refl)
          | inr n3 ↦ rw n3 (elim (Bool-cases (same_text (text_of name) "histogram")) [
            | inl e ↦ rw e (inl refl)
            | inr n4 ↦ rw n4 (inr (refl, refl))
          ])
        ])
      ])
    ]
