-- ===== src/Cli/Orders.antt =====
-- Comparisons with three results that sort, for those of src/cli/intf_vty.c: of numbers, of strings,
-- by a key, and one after another.
use ops_intfd.Prelude.{◌≡◌, refl, [], ◌∷◌, arith}
use ops_intfd.CString.{CString}
use ops_intfd.Cli.Names.{Comparison, less, equal, greater, compare_ints, strcmp}

abbrev pub flip : Comparison → Comparison
flip less = greater
flip equal = equal
flip greater = less

-- The first comparison decides, unless it finds no difference.
abbrev pub lex : Comparison → Comparison → Comparison
lex less d = less
lex equal d = d
lex greater d = greater

-- A comparison that sorts: it is turned around with its arguments, what is below something that is
-- below a third is below the third, and what does not differ compares alike.
pub record IsOrder {A : Type 0} (compare : A → A → Comparison) : Type 0 where
  pub flipped : (a b : A) → compare b a ≡ flip (compare a b)
  pub transitive : (a b c : A) → compare a b ≡ less → compare b c ≡ less → compare a c ≡ less
  pub congruent : (a b c : A) → compare a b ≡ equal → compare a c ≡ compare b c

pub compare_ints-IsOrder : IsOrder compare_ints
compare_ints-IsOrder = record {
  flipped = λ a b. ground arith;
  transitive = λ a b c h k. ground arith;
  congruent = λ a b c h. ground arith;
}

pub strcmp_flipped : (s t : CString) → strcmp t s ≡ flip (strcmp s t)
unfolding strcmp
strcmp_flipped [] [] = refl
strcmp_flipped [] (y ∷ t) = refl
strcmp_flipped (x ∷ s) [] = refl
strcmp_flipped (x ∷ s) (y ∷ t) = ground (arith, strcmp_flipped s t)

pub strcmp_transitive :
    (s t u : CString) → strcmp s t ≡ less → strcmp t u ≡ less → strcmp s u ≡ less
unfolding strcmp
strcmp_transitive [] [] u h k = absurd (cc h)
strcmp_transitive [] (y ∷ t) [] h k = absurd (cc k)
strcmp_transitive [] (y ∷ t) (z ∷ u) h k = refl
strcmp_transitive (x ∷ s) [] u h k = absurd (cc h)
strcmp_transitive (x ∷ s) (y ∷ t) [] h k = absurd (cc k)
strcmp_transitive (x ∷ s) (y ∷ t) (z ∷ u) h k = ground (arith, strcmp_transitive s t u)

pub strcmp_congruent : (s t u : CString) → strcmp s t ≡ equal → strcmp s u ≡ strcmp t u
unfolding strcmp
strcmp_congruent [] [] u h = refl
strcmp_congruent [] (y ∷ t) u h = absurd (cc h)
strcmp_congruent (x ∷ s) [] u h = absurd (cc h)
strcmp_congruent (x ∷ s) (y ∷ t) [] h = refl
strcmp_congruent (x ∷ s) (y ∷ t) (z ∷ u) h = ground (arith, strcmp_congruent s t u)

module _ {A B : Type 0} where
  -- By a key.
  pub pullback-IsOrder :
      (compare : B → B → Comparison) (key : A → B)
      → IsOrder compare
      → IsOrder (λ a b. compare (key a) (key b))
  pullback-IsOrder compare key o = record {
    flipped = λ a b. o.flipped (key a) (key b);
    transitive = λ a b c. o.transitive (key a) (key b) (key c);
    congruent = λ a b c. o.congruent (key a) (key b) (key c);
  }

module _ {A : Type 0} (first second : A → A → Comparison) (o : IsOrder first)
    (p : IsOrder second) where
  pub lex-IsOrder : IsOrder (λ a b. lex (first a b) (second a b))
  lex-IsOrder = record {
    flipped = λ a b. ground (arith, o.flipped a b, p.flipped a b);
    transitive = λ a b c h k. ground (
      arith,
      o.transitive a b c,
      p.transitive a b c,
      o.congruent a b c,
      o.congruent b c a,
      o.flipped a b,
      o.flipped b c,
      o.flipped a c,
    );
    congruent = λ a b c h. ground (arith, o.congruent a b c, p.congruent a b c);
  }
