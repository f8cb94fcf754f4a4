-- ===== src/Fs/Initramfs/Match.antt =====
-- Which names `tar_match_name` takes for the same.
use miyabi.Base.{
  ℕ, ◌≡◌, ◌≢◌, ◌⊎◌, ◌↔◌, refl, arith, true, List, [], ◌∷◌, ◌++◌, ◌==◌, inl, inr, Bool-cases,
}
use miyabi.Fs.Initramfs.{sanitize_path, is_slash, match_clean, tar_match_name}

-- The same text, or one has one slash more at its end.
abbrev pub SameName : List ℕ → List ℕ → Type 0
SameName a b = (a ≡ b) ⊎ ((a ≡ b ++ 47 ∷ []) ⊎ (b ≡ a ++ 47 ∷ []))

is_slash_iff : (cs : List ℕ) → (is_slash cs ≡ true) ↔ (cs ≡ 47 ∷ [])
unfolding is_slash
is_slash_iff [] = ground arith
is_slash_iff (c ∷ []) = ground arith
is_slash_iff (c ∷ d ∷ cs) = ground arith

SameName-cons : (c : ℕ) (a b : List ℕ) → SameName a b ↔ SameName (c ∷ a) (c ∷ b)
SameName-cons c a b = (
  (λ s. elim s [ inl e ↦ inl (cc) | inr (inl e) ↦ inr (inl (cc)) | inr (inr e) ↦ inr (inr (cc)) ]),
  λ s. elim s [ inl e ↦ inl (cc) | inr (inl e) ↦ inr (inl (cc)) | inr (inr e) ↦ inr (inr (cc)) ],
)

SameName-head : (c d : ℕ) (cs ds : List ℕ) → SameName (c ∷ cs) (d ∷ ds) → c ≡ d
SameName-head c d cs ds (inl e) = cc
SameName-head c d cs ds (inr (inl e)) = cc
SameName-head c d cs ds (inr (inr e)) = cc

match_clean_iff : (a b : List ℕ) → (match_clean a b ≡ true) ↔ SameName a b
unfolding match_clean
match_clean_iff [] [] = ((λ _. inl refl), λ _. refl)
match_clean_iff [] (d ∷ ds) = ground (arith, is_slash_iff (d ∷ ds))
match_clean_iff (c ∷ cs) [] = ground (arith, is_slash_iff (c ∷ cs))
match_clean_iff (c ∷ cs) (d ∷ ds) = elim (Bool-cases (c == d)) [
  | inl same ↦
      let e : c ≡ d = ground arith in
      let r = match_clean_iff cs ds in
      let s = SameName-cons d cs ds in rw (same, e) ((λ m. s.0 (r.0 m)), λ t. r.1 (s.1 t))
  | inr apart ↦
      let ne : c ≢ d = ground arith in
      rw apart ((λ e. absurd (cc)), λ s. absurd (ne (SameName-head c d cs ds s)))
]

-- `tar_match_name` holds exactly where the two names without their leading dots and slashes are
-- equal, or one of them is the other with one slash behind it.
pub tar_match_name_iff :
    (a b : List ℕ) → (tar_match_name a b ≡ true) ↔ SameName (sanitize_path a) (sanitize_path b)
unfolding tar_match_name
tar_match_name_iff a b = match_clean_iff (sanitize_path a) (sanitize_path b)
