-- ===== src/Baseline/Jumps.antt =====
-- Where JUMP leads, with the map that the code analysis makes.
use zvmone.Prelude.{
  ℕ, ◌≤◌, ◌<◌, ◌^◌, ◌≡◌, ◌⊎◌, refl, true, false, none, some, List, inl, inr, Bool-cases, arith,
  length, get_or,
}
use zvmone.Uint256.{Uint256, of_uint64, value}
use zvmone.Zvmc.{bad_jump_destination, Message}
use zvmone.Platform.{Platform, IsPlatform}
use zvmone.Exec.{Frame, ok}
use zvmone.Instructions.Flow.{jump_impl}
use zvmone.Baseline.{set_status}
use zvmone.Baseline.Analysis.{analyze, analyze_jumpdests}
use zvmone.Baseline.Analysis.Padding.{length-analyze_jumpdests}
use zvmone.Baseline.Analysis.Boundary.{
  Reaches, byte_at, byte_at-outside, AreBytes, analyze_jumpdests-Reaches,
}

-- A JUMPDEST at which an instruction starts.
abbrev pub IsJumpdest : List ℕ → ℕ → Type 0
IsJumpdest code j = Reaches code 0 j × (byte_at code j ≡ 0x5b)

module _ {H : Type 0} (p : Platform H) (w : IsPlatform p) where
  -- For a platform that keeps its laws, in an analysed code of fewer than 2^63 bytes a jump leads
  -- to its destination and changes nothing if a JUMPDEST instruction starts there. Otherwise it is
  -- refused, with the status for a bad jump destination.
  pub jump_impl-IsJumpdest :
      (msg : Message) (code : List ℕ) (dst : Uint256) (f : Frame H)
      → AreBytes code
      → length code < 2 ^ 63
      → (IsJumpdest code (value dst)
          × (jump_impl p (analyze msg code) dst f ≡ ok (some (value dst)) f))
        ⊎ (¬ IsJumpdest code (value dst)
            × (jump_impl p (analyze msg code) dst f ≡ ok none (set_status bad_jump_destination f)))
  unfolding jump_impl analyze
  jump_impl-IsJumpdest msg code dst f v b =
      let n = length-analyze_jumpdests code in
      let test = w.ult_value dst (of_uint64 (length (analyze_jumpdests code))) in
      let marked = analyze_jumpdests-Reaches code (value dst) v in
      elim (Bool-cases (p.intx.ult dst (of_uint64 (length (analyze_jumpdests code))))) [
        | inl inside ↦
            let low : value dst ≡ dst.w0 = ground arith in
            elim (Bool-cases (get_or (analyze_jumpdests code) dst.w0 false)) [
              | inl dest ↦ rw (inside, dest) (inl (marked.0 (rw low dest), rw low refl))
              | inr plain ↦
                  rw (inside, plain)
                    (inr (
                      (λ j.
                          let m : get_or (analyze_jumpdests code) dst.w0 false ≡ true =
                            (rw low at (marked.1 j)) in
                          cc),
                      refl,
                    ))
            ]
        | inr outside ↦
            let far : length code ≤ value dst = ground arith in
            rw outside (
              inr (
                (λ j.
                    absurd
                      (let z = byte_at-outside code (value dst) far in let y = j.1 in omega arith)),
                refl,
              ))
      ]
