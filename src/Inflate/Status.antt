-- ===== src/Inflate/Status.antt =====
-- The results of tools/armrecomp/inflate.h.
pub data Status : Type 0 where
  ok err_input err_output err_format err_distance err_header err_adler : Status

-- What holds of the way on after `ok` and of the early return holds of the whole.
pub ok_holds {ℓ κ} :
    {A : Type ℓ} (P : A → Type κ) (s : Status) (x y : A) → P x → P y → P (elim s [ ok ↦ x | _ ↦ y ])
ok_holds P ok x y p q = p
ok_holds P _ x y p q = q
