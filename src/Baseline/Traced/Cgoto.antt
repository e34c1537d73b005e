-- ===== src/Baseline/Traced/Cgoto.antt =====
-- The computed-goto loop and the switch (lib/zvmone/baseline.cpp).
use zvmone.Prelude.{
  ℕ, zero, suc, ◌+◌, ◌<◌, ◌≡◌, refl, arith, Option, none, some, List, [], ◌∷◌, map, get_elem?,
}
use zvmone.Platform.{Platform}
use zvmone.Exec.{Context, Frame}
use zvmone.Opcodes.{Opcode, decode}
use zvmone.Zvmc.{undefined_instruction}
use zvmone.Baseline.{
  Next, running, stopped, faulted, step, invoke, set_status, Run, finished, undefined, dispatch,
}
use zvmone.Baseline.Analysis.Boundary.{AreBytes}
use zvmone.Baseline.Traced.{bytes_from, cgoto_table, target, jump_to_target, dispatch_cgoto}

get_elem?-bytes_from :
    (n b i : ℕ) → i < n → get_elem? (map decode (bytes_from n b)) i ≡ some (decode (b + i))
get_elem?-bytes_from zero b i h = absurd (omega arith)
get_elem?-bytes_from (suc n) b zero h = let e : b + 0 ≡ b = omega arith in rw e refl
get_elem?-bytes_from (suc n) b (suc i) h =
    let e : b + suc i ≡ suc b + i = omega arith in
    rw e (get_elem?-bytes_from n (suc b) i (omega arith))

get_elem?-lt : (code : List ℕ) (i b : ℕ) → AreBytes code → get_elem? code i ≡ some b → b < 256
get_elem?-lt [] i b v e = cc
get_elem?-lt (x ∷ code) zero b v e = let same : x ≡ b = cc in omega (arith, v.0)
get_elem?-lt (x ∷ code) (suc i) b v e = get_elem?-lt code i b v.1 e

module _ {H : Type 0} (p : Platform H) where
  jump_to_target-step :
      (ctx : Context) (position : ℕ) (f : Frame H) (byte : Option ℕ)
      → ((b : ℕ) → byte ≡ some b → b < 256)
      → jump_to_target p ctx byte position f ≡ step p ctx byte position f
  unfolding jump_to_target step target cgoto_table
  jump_to_target-step ctx position f none v = refl
  jump_to_target-step ctx position f (some b) v =
      let same : 0 + b ≡ b = omega arith in
      rw (get_elem?-bytes_from 256 0 b (v b refl), same) (by_label (decode b))
    where
      by_label :
          (label : Option Opcode)
          → target p ctx label position f ≡ (elim label [
            | none ↦ stopped (set_status undefined_instruction f)
            | some op ↦ invoke p ctx op position f
          ])
      by_label none = refl
      by_label (some op) = refl

  -- On a padded code of bytes the computed-goto loop ends as the loop with the switch does.
  pub dispatch_cgoto-dispatch :
      (ctx : Context) (rounds position : ℕ) (f : Frame H)
      → AreBytes ctx.padded_code
      → dispatch_cgoto rounds p ctx position f ≡ dispatch rounds p ctx position f
  unfolding dispatch_cgoto dispatch
  dispatch_cgoto-dispatch ctx zero position f v = refl
  dispatch_cgoto-dispatch ctx (suc rounds) position f v =
      rw
        (
          dispatch_cgoto,
          (jump_to_target-step ctx position f (get_elem? ctx.padded_code position)
              (λ b e. get_elem?-lt ctx.padded_code position b v e)),
        )
        (by_next (λ next f'. dispatch_cgoto-dispatch ctx rounds next f' v)
          (step p ctx (get_elem? ctx.padded_code position) position f))
    where
      by_next :
          ((next : ℕ) (f' : Frame H)
            → dispatch_cgoto rounds p ctx next f' ≡ dispatch rounds p ctx next f')
          → (o : Next H)
          → (elim o as (λ _. Run H) [
            | running next f' ↦ dispatch_cgoto rounds p ctx next f'
            | stopped f' ↦ finished f'
            | faulted ↦ undefined
          ])
            ≡ (elim o as (λ _. Run H) [
              | running next f' ↦ dispatch rounds p ctx next f'
              | stopped f' ↦ finished f'
              | faulted ↦ undefined
            ])
      by_next rest (running next f') = rest next f'
      by_next rest (stopped f') = refl
      by_next rest faulted = refl
