-- ===== src/Mqtt/Schemas/Shapes.antt =====
-- The identifiers of a command, said of their characters alone (the regular expressions of
-- nightshift/integrations/mqtt/schemas.py).
use Prim.Native.Char.{code}
use Prim.Native.String.{String, ◌∷◌ as ◌∶◌}
use nightshift_opi.Prelude.{
  ℕ, zero, suc, ◌≤◌, ◌≡◌, ◌⊎◌, inl, inr, refl, ap, ◌∙◌, Bool-cases, true, ◌||◌, ◌==◌, Bool, List,
  [], ◌∷◌, ◌++◌, All, length, arith,
}
use nightshift_opi.Mqtt.Topics.{is_lower_or_digit, is_end, matches_tail, is_client_id}
use nightshift_opi.Mqtt.Schemas.{matches_hex, matches_dash, is_uuid}

-- The characters of a text, by their codes
abbrev pub codes : String → List ℕ
codes String.[] = []
codes (c ∶ s) = code c ∷ codes s

-- 0 to 9 or a to f
abbrev pub IsHex : ℕ → Type 0
IsHex c = ((48 ≤ c) × (c ≤ 57)) ⊎ ((97 ≤ c) × (c ≤ 102))

-- a to z or 0 to 9
abbrev pub IsLowerOrDigit : ℕ → Type 0
IsLowerOrDigit c = ((97 ≤ c) × (c ≤ 122)) ⊎ ((48 ≤ c) × (c ≤ 57))

-- Nothing, or a line feed
abbrev pub IsEnd : List ℕ → Type 0
IsEnd end = (end ≡ []) ⊎ (end ≡ 10 ∷ [])

abbrev pub IsGroup : ℕ → List ℕ → Type 0
IsGroup n g = (length g ≡ n) × All IsHex g

-- Groups of 8, 4, 4, 4 and 12 hexadecimal digits with dashes between them
abbrev pub IsUuid : String → Type 0
IsUuid s =
    (a : List ℕ) × (b : List ℕ) × (c : List ℕ) × (d : List ℕ) × (e : List ℕ) × (end : List ℕ)
    × (codes s ≡ a ++ 45 ∷ (b ++ 45 ∷ (c ++ 45 ∷ (d ++ 45 ∷ (e ++ end)))))
    × IsGroup 8 a
    × IsGroup 4 b
    × IsGroup 4 c
    × IsGroup 4 d
    × IsGroup 12 e
    × IsEnd end

-- A lower-case letter or a digit, and up to 63 of these or dashes
abbrev pub IsClientId : String → Type 0
IsClientId s =
    (c : ℕ) × (tail : List ℕ) × (end : List ℕ) × (codes s ≡ c ∷ (tail ++ end))
    × IsLowerOrDigit c
    × (length tail ≤ 63)
    × All (λ d. IsLowerOrDigit d ⊎ (d ≡ 45)) tail
    × IsEnd end

is_end-IsEnd : (s : String) → is_end s ≡ true → IsEnd (codes s)
unfolding is_end
is_end-IsEnd String.[] h = inl refl
is_end-IsEnd (c ∶ String.[]) h =
    let feed : code c ≡ 10 = ground arith in inr (ap (λ n. n ∷ []) feed)
is_end-IsEnd (c ∶ (d ∶ s)) h = absurd (ground arith)

hex-IsGroup :
    (n : ℕ) (rest : String → Bool) (s : String)
    → matches_hex n rest s ≡ true
    → (g : List ℕ) × (s' : String) × (codes s ≡ g ++ codes s') × IsGroup n g × (rest s' ≡ true)
unfolding matches_hex
hex-IsGroup zero rest s h = ([], s, refl, (refl, tt), h)
hex-IsGroup (suc n) rest String.[] h = absurd (ground arith)
hex-IsGroup (suc n) rest (c ∶ s) h =
    let hex : IsHex (code c) = ground arith in
    let (g, s', e, (l, all), r) = hex-IsGroup n rest s (ground arith) in
    (code c ∷ g, s', ap (λ x. code c ∷ x) e, (omega arith, (hex, all)), r)

dash :
    (rest : String → Bool) (s : String)
    → matches_dash rest s ≡ true
    → (s' : String) × (codes s ≡ 45 ∷ codes s') × (rest s' ≡ true)
unfolding matches_dash
dash rest String.[] h = absurd (ground arith)
dash rest (c ∶ s) h =
    let is : code c ≡ 45 = ground arith in (s, ap (λ n. n ∷ codes s) is, ground arith)

-- A group with its dash
hex_dash-IsGroup :
    (n : ℕ) (rest : String → Bool) (s : String)
    → matches_hex n (matches_dash rest) s ≡ true
    → (g : List ℕ) × (s' : String) × (codes s ≡ g ++ 45 ∷ codes s') × IsGroup n g × (rest s' ≡ true)
hex_dash-IsGroup n rest s h =
    let (g, s', e, group, r) = hex-IsGroup n (matches_dash rest) s h in
    let (s'', f, q) = dash rest s' r in (g, s'', e ∙ ap (λ x. g ++ x) f, group, q)

pub is_uuid-IsUuid : (s : String) → is_uuid s ≡ true → IsUuid s
unfolding is_uuid
is_uuid-IsUuid s h =
    let (a, s1, e1, g1, h1) = hex_dash-IsGroup 8 _ s h in
    let (b, s2, e2, g2, h2) = hex_dash-IsGroup 4 _ s1 h1 in
    let (c, s3, e3, g3, h3) = hex_dash-IsGroup 4 _ s2 h2 in
    let (d, s4, e4, g4, h4) = hex_dash-IsGroup 4 _ s3 h3 in
    let (e, s5, e5, g5, h5) = hex-IsGroup 12 is_end s4 h4 in
    (a, b, c, d, e, codes s5, cc, g1, g2, g3, g4, g5, is_end-IsEnd s5 h5)

-- What the rest of a client id is
tail_codes :
    (n : ℕ) (s : String)
    → matches_tail n s ≡ true
    → (tail : List ℕ) × (end : List ℕ) × (codes s ≡ tail ++ end)
      × (length tail ≤ n)
      × All (λ d. IsLowerOrDigit d ⊎ (d ≡ 45)) tail
      × IsEnd end
unfolding matches_tail
tail_codes n String.[] h = ([], [], refl, omega arith, tt, inl refl)
tail_codes zero (c ∶ s) h = ([], codes (c ∶ s), refl, omega arith, tt, is_end-IsEnd (c ∶ s) h)
tail_codes (suc n) (c ∶ s) h = elim (Bool-cases (is_lower_or_digit (code c) || code c == 45)) [
  | inl more ↦
      let is : IsLowerOrDigit (code c) ⊎ (code c ≡ 45) = ground arith in
      let (tail, end, e, few, all, ends) = tail_codes n s (ground arith) in
      (code c ∷ tail, end, ap (λ x. code c ∷ x) e, omega arith, (is, all), ends)
  | inr last ↦ ([], codes (c ∶ s), refl, omega arith, tt, is_end-IsEnd (c ∶ s) (ground arith))
]

pub is_client_id-IsClientId : (s : String) → is_client_id s ≡ true → IsClientId s
unfolding is_client_id
is_client_id-IsClientId String.[] h = absurd (ground arith)
is_client_id-IsClientId (c ∶ s) h =
    let first : IsLowerOrDigit (code c) = ground arith in
    let (tail, end, e, few, all, ends) = tail_codes 63 s (ground arith) in
    (code c, tail, end, ap (λ x. code c ∷ x) e, first, few, all, ends)
