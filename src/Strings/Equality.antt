-- ===== src/Strings/Equality.antt =====
-- The comparison of texts decides their equality.
use mail_subsystem.Prelude.{◌≡◌, refl, true, [], ◌∷◌, arith, ◌↔◌, ◌==◌, ==_iff, ==_refl, &&-cases}
use mail_subsystem.Prelude.Text.{Text}
use mail_subsystem.Strings.{text_eq}

pub text_eq_iff : (a b : Text) → (text_eq a b ≡ true) ↔ (a ≡ b)
text_eq_iff a b = (to a b, λ e. rw e (text_eq_refl b))
  where
    to : (x y : Text) → text_eq x y ≡ true → x ≡ y
    to [] [] h = refl
    to [] (d ∷ ds) h = absurd (ground arith)
    to (c ∷ cs) [] h = absurd (ground arith)
    to (c ∷ cs) (d ∷ ds) h =
        let (k, rest) = &&-cases (c == d) (text_eq cs ds) h in
        let head : c ≡ d = (==_iff c d).0 k in let tail : cs ≡ ds = to cs ds rest in cc (head, tail)

    text_eq_refl : (x : Text) → text_eq x x ≡ true
    text_eq_refl [] = refl
    text_eq_refl (c ∷ cs) = rw (==_refl c) (text_eq_refl cs)
