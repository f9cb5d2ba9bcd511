-- ===== src/Config/HwConfig/RoundTrip.antt =====
-- parse_speeds reads back the list of speeds that set_intf_hw_config_in_db writes.
use ops_intfd.Prelude.{
  ℕ, zero, suc, ◌+◌, ◌≤◌, ◌<◌, ◌^◌, ◌≡◌, refl, sym, ap, ◌∙◌, pos, false, ◌||◌, not, List, [], ◌∷◌,
  ◌++◌, arith, All, map, take, set, length, length-set, leb,
}
use ops_intfd.CString.{is_a_number}
use ops_intfd.CString.Decimal.{text, text-AreDigits, text-ne, atoi-text, AreDigits-is_a_number}
use ops_intfd.CString.Tokens.{IsToken, join, join_tail, strtok-join, append_nil, append_assoc}
use ops_intfd.Interface.{max_speeds_allowed}
use ops_intfd.Parse.Speeds.{no_speeds, parse_tokens, parse_speeds}
use ops_intfd.Config.HwConfig.{speed_string}
use ops_intfd.Config.HwConfig.Keys.{join_rest, join_speeds, speed_string-eq-join}

-- A speed that an int can hold.
abbrev pub IsInt : ℕ → Type 0
IsInt s = s < 2 ^ 31

take-set :
    (i : ℕ) (v : ℕ) (speeds : List ℕ)
    → i < length speeds
    → take (suc i) (set speeds i v) ≡ take i speeds ++ v ∷ []
take-set i v [] h = absurd (omega arith)
take-set zero v (s ∷ speeds) h = refl
take-set (suc i) v (s ∷ speeds) h = ap (λ t. s ∷ t) (take-set i v speeds (omega arith))

parse-map-text :
    (i k : ℕ) (xs speeds : List ℕ)
    → k ≡ i + length xs
    → k ≤ max_speeds_allowed
    → length speeds ≡ max_speeds_allowed
    → All IsInt xs
    → ((parse_tokens i (map text xs) speeds).0 ≡ pos k)
      × (take k (parse_tokens i (map text xs) speeds).1 ≡ take i speeds ++ xs)
unfolding parse_tokens
parse-map-text i k [] speeds e m l h =
    (ap pos (omega arith), ap (λ j. take j speeds) (omega arith) ∙ sym (append_nil (take i speeds)))
parse-map-text i k (x ∷ xs) speeds e m l (h, hs) =
    let more : (leb max_speeds_allowed i || not (is_a_number (text x))) ≡ false =
      ground (arith, AreDigits-is_a_number (text x) (text-AreDigits x h)) in
    let (count, array) =
      parse-map-text (i + 1) k xs (set speeds i x) (omega arith) m (length-set speeds i x ∙ l) hs in
    rw (more, atoi-text x h)
      (
        count,
        array
            ∙ ap (λ j. take j (set speeds i x) ++ xs) {y = suc i} (omega arith)
            ∙ ap (λ t. t ++ xs) (take-set i x speeds (omega arith))
            ∙ append_assoc (take i speeds) xs x,
      )

map-text-IsToken : (xs : List ℕ) → All IsInt xs → All IsToken (map text xs)
map-text-IsToken [] h = tt
map-text-IsToken (x ∷ xs) (h, hs) = ((text-ne x h, text-AreDigits x h), map-text-IsToken xs hs)

join_rest-eq : (xs : List ℕ) → join_rest xs ≡ join_tail (map text xs)
join_rest-eq [] = refl
join_rest-eq (x ∷ xs) = ap (λ t. (b',' ∷ text x) ++ t) (join_rest-eq xs)

join_speeds-eq : (xs : List ℕ) → join_speeds xs ≡ join (map text xs)
join_speeds-eq [] = refl
join_speeds-eq (x ∷ xs) = ap (λ t. text x ++ t) (join_rest-eq xs)

length-take : (n : ℕ) (speeds : List ℕ) → n ≤ length speeds → n ≡ 0 + length (take n speeds)
length-take zero speeds h = refl
length-take (suc n) [] h = absurd (omega arith)
length-take (suc n) (s ∷ speeds) h = let rest = length-take n speeds (omega arith) in omega arith

-- For at most ten speeds, each of which an int can hold: parsing the string that is written for
-- them gives their number and the same speeds.
pub parse_speeds-speed_string :
    (n : ℕ) (speeds : List ℕ)
    → n ≤ max_speeds_allowed
    → n ≤ length speeds
    → All IsInt (take n speeds)
    → let result = parse_speeds (speed_string n speeds) no_speeds in
      (result.0 ≡ pos n) × (take n result.1 ≡ take n speeds)
unfolding parse_speeds
parse_speeds-speed_string n speeds m l h =
    rw
      (
        speed_string-eq-join n speeds,
        join_speeds-eq (take n speeds),
        strtok-join (map text (take n speeds)) (map-text-IsToken (take n speeds) h),
      )
      (parse-map-text 0 n (take n speeds) no_speeds (length-take n speeds l) m refl h)
