-- ===== src/Mounts/Named.antt =====
-- The users that the lines of sshd name exactly.
use Prim.Native.String.{[], ◌∷◌}
use cozy_nm.Base.{
  ℕ, ◌≡◌, refl, String, ◌==◌, Bool, true, false, not, ◌&&◌, ◌||◌, arith, if◌then◌else◌, nat_eq,
  is_empty, List, ◌++◌, any, Bool-cases, inl, inr, ◌⊎◌, all, any_char, all_chars,
}
use cozy_nm.Base.Dicts.{contains}
use cozy_nm.Mounts.Exports.{exact_match_users}
use cozy_nm.Mounts.SshConfig.{Lines}
use cozy_nm.Mounts.Table.{comma_parts}
use cozy_nm.Nginx.Sites.{lower}

-- the users that are taken from the lines
unfoldable pub named_users : Lines → List String
named_users List.[] = List.[]
named_users (List.◌∷◌ List.[] lines) = named_users lines
named_users (List.◌∷◌ (List.◌∷◌ token arguments) lines) =
    let rest = named_users lines in
    if lower token == "match" then exact_match_users arguments ++ rest else rest

pub or_right : (a : Bool) {b : Bool} → b ≡ true → (a || b) ≡ true
or_right true k = refl
or_right false k = k

abbrev is_wild : ℕ → Bool
is_wild c = nat_eq c b'*' || nat_eq c b'!' || nat_eq c b'?'

-- The line is `Match User` with a list that the user is on, and the list has no empty name, no
-- pattern and no negation.
abbrev pub names_exactly : (user : String) → List String → Bool
names_exactly user (List.◌∷◌ token (List.◌∷◌ criterion (List.◌∷◌ names List.[]))) =
    lower token == "match"
    && lower criterion == "user"
    && contains user (comma_parts names)
    && all (λ n. not (is_empty n) && all_chars (λ c. not (is_wild c)) n) (comma_parts names)
names_exactly user _ = false

plain-name : (n : String) → any_char is_wild n ≡ false → all_chars (λ c. not (is_wild c)) n ≡ true
plain-name [] h = refl
plain-name (c ∷ s) h = ground (arith, plain-name s)

all-plain :
    (ns : List String)
    → any (λ n. is_empty n || any_char is_wild n) ns ≡ false
    → all (λ n. not (is_empty n) && all_chars (λ c. not (is_wild c)) n) ns ≡ true
all-plain List.[] h = refl
all-plain (List.◌∷◌ n ns) h = ground (arith, plain-name n, all-plain ns)

exact_match_users-named :
    (user token : String) (arguments : List String)
    → lower token == "match" ≡ true
    → contains user (exact_match_users arguments) ≡ true
    → names_exactly user (List.◌∷◌ token arguments) ≡ true
unfolding exact_match_users contains
exact_match_users-named user token List.[] m h = absurd (cc)
exact_match_users-named user token (List.◌∷◌ a List.[]) m h = absurd (cc)
exact_match_users-named user token (List.◌∷◌ a (List.◌∷◌ names List.[])) m h =
    let ns = comma_parts names in
    elim (Bool-cases (not (lower a == "user") || any (λ n. is_empty n || any_char is_wild n) ns)) [
      | inl e ↦ let bad : contains user List.[] ≡ true = rw e at h in absurd (cc (bad))
      | inr e ↦
          let k : contains user ns ≡ true = rw e at h in
          let i : any (λ n. is_empty n || any_char is_wild n) ns ≡ false = ground arith in
          let c : lower a == "user" ≡ true = ground arith in rw (m, c, k, all-plain ns i) refl
    ]
exact_match_users-named user token (List.◌∷◌ a (List.◌∷◌ b (List.◌∷◌ d more))) m h = absurd (cc)

contains-append :
    (u : String) (xs ys : List String)
    → contains u (xs ++ ys) ≡ true
    → (contains u xs ≡ true) ⊎ (contains u ys ≡ true)
unfolding contains
contains-append u List.[] ys h = inr h
contains-append u (List.◌∷◌ x xs) ys h = elim (Bool-cases (x == u)) [
  | inl e ↦ inl (rw e refl)
  | inr e ↦ elim (contains-append u xs ys (rw e at h)) [ inl k ↦ inl (rw e k) | inr k ↦ inr k ]
]

pub named_users-named :
    (user : String) (lines : Lines)
    → contains user (named_users lines) ≡ true
    → any (names_exactly user) lines ≡ true
unfolding named_users contains
named_users-named user List.[] h = absurd (cc)
named_users-named user (List.◌∷◌ List.[] lines) h = named_users-named user lines h
named_users-named user (List.◌∷◌ (List.◌∷◌ token arguments) lines) h =
    elim (Bool-cases (lower token == "match")) [
      | inr e ↦
          or_right (names_exactly user (List.◌∷◌ token arguments))
            (named_users-named user lines (rw e at h))
      | inl e ↦
          elim (contains-append user (exact_match_users arguments) (named_users lines)
            (rw e at h)) [
              | inl k ↦ rw (exact_match_users-named user token arguments e k) refl
              | inr k ↦
                  or_right (names_exactly user (List.◌∷◌ token arguments))
                    (named_users-named user lines k)
            ]
    ]
