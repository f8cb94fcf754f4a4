-- ===== src/Cmdline/Flag.antt =====
-- Where `check_flag` finds a flag.
use miyabi.Base.{
  ℕ, ◌≡◌, ◌↔◌, refl, arith, true, ◌&&◌, List, [], ◌∷◌, ◌++◌, ◌==◌, get_or, ap, ◌∙◌, inl, inr,
  Bool-cases,
}
use miyabi.Cmdline.{ends_argument, flag_matches, check_flag}

-- The flag stands in the text, with the end or a space behind it.
pub record FlagAt (cmdline flag : List ℕ) : Type 0 where
  pub pre : List ℕ
  pub post : List ℕ
  pub split : cmdline ≡ pre ++ (flag ++ post)
  pub ended : ends_argument post ≡ true

-- The flag stands at the front.
record AtFront (p flag : List ℕ) : Type 0 where
  post : List ℕ
  split : p ≡ flag ++ post
  ended : ends_argument post ≡ true

flag_matches-AtFront : (flag p : List ℕ) → flag_matches flag p ≡ true → AtFront p flag
unfolding flag_matches
flag_matches-AtFront [] p h = record { post = p; split = refl; ended = h }
flag_matches-AtFront (f ∷ fs) [] h = absurd (cc)
flag_matches-AtFront (f ∷ fs) (c ∷ cs) h = elim (Bool-cases (c == f)) [
  | inl same ↦
      let e : c ≡ f = ground arith in
      let r = flag_matches-AtFront fs cs (rw (flag_matches, same) at h) in
      record { post = r.post; split = cc r.split; ended = r.ended }
  | inr apart ↦ absurd (ground arith)
]

AtFront-flag_matches :
    (flag post : List ℕ) → ends_argument post ≡ true → flag_matches flag (flag ++ post) ≡ true
unfolding flag_matches
AtFront-flag_matches [] post h = h
AtFront-flag_matches (f ∷ fs) post h = ground (arith, AtFront-flag_matches fs post h)

check_flag-found : (flag cmdline : List ℕ) → check_flag cmdline flag ≡ true → FlagAt cmdline flag
unfolding check_flag
check_flag-found flag [] h = absurd (cc)
check_flag-found flag (c ∷ cs) h =
    elim (Bool-cases ((c == get_or flag 0 0) && flag_matches flag (c ∷ cs))) [
      | inl here ↦
          let r = flag_matches-AtFront flag (c ∷ cs) (ground arith) in
          record { pre = []; post = r.post; split = r.split; ended = r.ended }
      | inr other ↦
          let r = check_flag-found flag cs (ground arith) in
          record { pre = c ∷ r.pre; post = r.post; split = cc r.split; ended = r.ended }
    ]

found-check_flag :
    (f : ℕ) (fs pre post : List ℕ)
    → ends_argument post ≡ true
    → check_flag (pre ++ ((f ∷ fs) ++ post)) (f ∷ fs) ≡ true
unfolding check_flag
found-check_flag f fs [] post h = ground (arith, AtFront-flag_matches (f ∷ fs) post h)
found-check_flag f fs (c ∷ pre) post h = ground (arith, found-check_flag f fs pre post h)

-- `check_flag` holds exactly where the flag, which is not empty, stands anywhere in the command line
-- with a space or the end behind it; what stands before it does not matter.
pub check_flag_iff :
    (f : ℕ) (fs cmdline : List ℕ) → (check_flag cmdline (f ∷ fs) ≡ true) ↔ FlagAt cmdline (f ∷ fs)
check_flag_iff f fs cmdline = (
  check_flag-found (f ∷ fs) cmdline,
  λ r. ap (λ t. check_flag t (f ∷ fs)) r.split ∙ found-check_flag f fs r.pre r.post r.ended,
)
