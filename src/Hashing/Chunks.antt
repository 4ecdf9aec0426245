-- ===== src/Hashing/Chunks.antt =====
-- The chunks of `get_file_hash` are the whole file.
use Prim.Native.String.{[] as nil, ◌∷◌ as ◌◂◌}
use package.text.Mathlib.TextLemmas.{append_assoc, nil-append, append-nil}
use pronze.Prelude.{
  ℕ, zero, suc, ◌<◌, String, ◌<>◌, ◌≡◌, refl, false, inl, inr, arith, ◌==◌, string_eq, eq_iff,
  Bool-cases, ◌∙◌, ap,
}
use pronze.Prelude.Texts.{count_chars, prefix, suffix_from}
use pronze.Prelude.Texts.Count.{prefix-append-suffix_from, count_chars-suffix_from}
use pronze.World.{Env, Content}
use pronze.Hashing.{hash_chunks, content_hash}

-- An empty chunk of a positive size means that nothing is left.
prefix-eq-nil : (n : ℕ) (s : String) → prefix (suc n) s ≡ "" → s ≡ ""
unfolding prefix
prefix-eq-nil n nil h = refl
prefix-eq-nil n (c ◂ s) h = absurd (cons_ne h)
  where
    cons_ne : c ◂ prefix n s ≡ "" → ⊥
    cons_ne e = package.text.Mathlib.TextLemmas.cons-ne-nil c (prefix n s) e

shrinks :
    (n : ℕ) (s : String) → (s == "") ≡ false → count_chars (suffix_from (suc n) s) < count_chars s
unfolding count_chars
shrinks n nil h = absurd (ground arith)
shrinks n (c ◂ s) h = omega (arith, count_chars-suffix_from (suc n) (c ◂ s))

-- With a round for each character and one more, the loop feeds the whole text to the hash.
hash_chunks-eq :
    (fuel n : ℕ) (seen rest : String)
    → count_chars rest < fuel
    → hash_chunks fuel (suc n) seen rest ≡ seen <> rest
unfolding hash_chunks
hash_chunks-eq zero n seen rest room = absurd (omega arith)
hash_chunks-eq (suc fuel) n seen rest room = elim (Bool-cases (prefix (suc n) rest == "")) [
  | inl done ↦
      rw done (
        rw (prefix-eq-nil n rest ((eq_iff (prefix (suc n) rest) "").0 done)) (rw (append-nil seen)))
  | inr more ↦ rw more (
      hash_chunks-eq fuel n (seen <> prefix (suc n) rest) (suffix_from (suc n) rest)
        (omega (arith, shrinks n rest (nonempty more)))
      ∙ append_assoc seen (prefix (suc n) rest) (suffix_from (suc n) rest)
      ∙ ap (λ t. seen <> t) (prefix-append-suffix_from (suc n) rest))
]
  where
    nonempty : (prefix (suc n) rest == "") ≡ false → (rest == "") ≡ false
    nonempty e = elim (Bool-cases (rest == "")) [
      | inl gone ↦ absurd (clash (rw ((eq_iff rest "").0 gone) at e))
      | inr there ↦ there
    ]
      where
        clash : (prefix (suc n) "" == "") ≡ false → ⊥
        clash x = ground arith

-- The digest of a file is the SHA-256 of all its bytes, whatever its length: the loop over chunks
-- leaves nothing out.
pub content_hash-eq : ⦃env : Env⦄ (c : Content) → content_hash c ≡ env.sha256 (env.bytes c)
unfolding content_hash
content_hash-eq ⦃env⦄ c = ap env.sha256 (
    hash_chunks-eq (suc (count_chars (env.bytes c))) 65535 "" (env.bytes c) (omega arith)
    ∙ nil-append (env.bytes c))
