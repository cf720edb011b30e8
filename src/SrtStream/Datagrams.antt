-- ===== src/SrtStream/Datagrams.antt =====
-- Lists of datagrams, as plugins/outputs/srt-stream.c writes them.
use mgw.Prelude.{
  ℕ, zero, suc, ◌≤◌, ◌≡◌, ◌∙◌, refl, sym, ap, List, [], ◌∷◌, ◌++◌, length, take, append_assoc,
  arith,
}

-- The bytes of datagrams, one behind the other.
unfoldable pub bytes_of : List (List ℕ) → List ℕ
bytes_of [] = []
bytes_of (d ∷ ds) = d ++ bytes_of ds

-- None of them is longer than a payload.
unfoldable pub AllFit : ℕ → List (List ℕ) → Type 0
AllFit payload_size [] = Unit
AllFit payload_size (d ∷ ds) = (length d ≤ payload_size) × AllFit payload_size ds

pub AllFit-append :
    (payload_size : ℕ) (ds es : List (List ℕ))
    → AllFit payload_size ds
    → AllFit payload_size es
    → AllFit payload_size (ds ++ es)
unfolding AllFit
AllFit-append payload_size [] es h k = k
AllFit-append payload_size (d ∷ ds) es (fits, h) k = (fits, AllFit-append payload_size ds es h k)

pub bytes_of-append : (ds es : List (List ℕ)) → bytes_of (ds ++ es) ≡ bytes_of ds ++ bytes_of es
unfolding bytes_of
bytes_of-append [] es = refl
bytes_of-append (d ∷ ds) es =
    ap (λ x. d ++ x) (bytes_of-append ds es) ∙ sym (append_assoc d (bytes_of ds) (bytes_of es))

pub take_all : (n : ℕ) (xs : List ℕ) → length xs ≤ n → take n xs ≡ xs
take_all zero [] l = refl
take_all zero (x ∷ xs) l = absurd (omega (arith, l))
take_all (suc n) [] l = refl
take_all (suc n) (x ∷ xs) l = ap (λ t. x ∷ t) (take_all n xs (omega (arith, l)))
