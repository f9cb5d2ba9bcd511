-- ===== src/CString/Tokens.antt =====
-- strtok over tokens joined by commas gives the tokens back.
use ops_intfd.Prelude.{
  ℕ, ◌≡◌, ◌≢◌, refl, sym, ap, ◌∙◌, true, false, List, [], ◌∷◌, ◌++◌, arith, All, ◌==◌,
}
use ops_intfd.CString.{CString, is_digit, strtok, strtok_from, end_token}
use ops_intfd.CString.Decimal.{AreDigits}

-- Each token after a comma.
abbrev pub join_tail : List CString → CString
join_tail [] = []
join_tail (t ∷ tokens) = (b',' ∷ t) ++ join_tail tokens

abbrev pub join : List CString → CString
join [] = []
join (t ∷ tokens) = t ++ join_tail tokens

-- A token that "%d" can have printed.
abbrev pub IsToken : CString → Type 0
IsToken t = (t ≢ []) × AreDigits t

digit_ne : (c : ℕ) → is_digit c ≡ true → (c == b',') ≡ false
digit_ne c h = ground arith

pub append_assoc : (cur s : CString) (c : ℕ) → (cur ++ c ∷ []) ++ s ≡ cur ++ c ∷ s
append_assoc [] s c = refl
append_assoc (d ∷ cur) s c = ap (λ t. d ∷ t) (append_assoc cur s c)

pub append_nil : (cur : CString) → cur ++ [] ≡ cur
append_nil [] = refl
append_nil (d ∷ cur) = ap (λ t. d ∷ t) (append_nil cur)

strtok_from-digit :
    (cur s : CString) (c : ℕ)
    → (c == b',') ≡ false
    → strtok_from b',' cur (c ∷ s) ≡ strtok_from b',' (cur ++ c ∷ []) s
unfolding strtok_from
strtok_from-digit cur s c h = ground arith

strtok_from-append :
    (cur t s : CString)
    → AreDigits t
    → strtok_from b',' cur (t ++ s) ≡ strtok_from b',' (cur ++ t) s
strtok_from-append cur [] s h = ap (λ c. strtok_from b',' c s) (sym (append_nil cur))
strtok_from-append cur (c ∷ t) s (h, hs) =
    strtok_from-digit cur (t ++ s) c (digit_ne c h)
    ∙ strtok_from-append (cur ++ c ∷ []) t s hs
    ∙ ap (λ u. strtok_from b',' u s) (append_assoc cur t c)

end_token-cons : (t : CString) (rest : List CString) → t ≢ [] → end_token t rest ≡ t ∷ rest
end_token-cons [] rest h = absurd (h refl)
end_token-cons (c ∷ t) rest h = refl

strtok_from-join_tail :
    (cur : CString) (tokens : List CString)
    → cur ≢ []
    → All IsToken tokens
    → strtok_from b',' cur (join_tail tokens) ≡ cur ∷ tokens
unfolding strtok_from
strtok_from-join_tail cur [] n h = end_token-cons cur [] n
strtok_from-join_tail cur (t ∷ tokens) n ((m, ds), hs) =
    end_token-cons cur _ n
    ∙ ap (λ r. cur ∷ r)
        (strtok_from-append [] t (join_tail tokens) ds ∙ strtok_from-join_tail t tokens m hs)

pub strtok-join : (tokens : List CString) → All IsToken tokens → strtok b',' (join tokens) ≡ tokens
unfolding strtok strtok_from
strtok-join [] h = refl
strtok-join (t ∷ tokens) ((m, ds), hs) =
    strtok_from-append [] t (join_tail tokens) ds ∙ strtok_from-join_tail t tokens m hs
