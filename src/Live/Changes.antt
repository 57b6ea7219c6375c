-- ===== src/Live/Changes.antt =====
-- Changes of the clients of a hub of backend/internal/http/handlers/ws.go, at their places.
use mathlib.Core.Path.{subst}
use uitgo_monorepo.Base.{
  ℕ, zero, suc, ◌≡◌, refl, sym, ap, ◌∙◌, Option, none, some, [], ◌∷◌, ◌⊎◌, inl, inr, get_elem?,
}
use uitgo_monorepo.Live.{Client, Hub, put_front, with_rest, modify, each}

-- A change of the client at one place, and a change of all clients.
pub data Modified (f : Client → Option Client) : ℕ → Hub → Hub → Type 0 where
  past : {i : ℕ} → Modified f i [] []
  here : {c c' : Client} {h : Hub} → f c ≡ some c' → Modified f zero (c ∷ h) (c' ∷ h)
  there :
      {i : ℕ} {c : Client} {h h' : Hub} → Modified f i h h' → Modified f (suc i) (c ∷ h) (c ∷ h')

pub data Each (f : Client → Option Client) : Hub → Hub → Type 0 where
  none_left : Each f [] []
  next : {c c' : Client} {h h' : Hub} → f c ≡ some c' → Each f h h' → Each f (c ∷ h) (c' ∷ h')

with_rest-some :
    (o : Option Client) (h : Hub) {h' : Hub}
    → with_rest o h ≡ some h'
    → (c : Client) × (o ≡ some c) × (c ∷ h ≡ h')
with_rest-some none h e = cc
with_rest-some (some c) h e = (c, refl, cc)

put_front-some :
    (o : Option Client) (p : Option Hub) {h' : Hub}
    → put_front o p ≡ some h'
    → (c : Client) × (h : Hub) × (o ≡ some c) × (p ≡ some h) × (c ∷ h ≡ h')
put_front-some none p e = cc
put_front-some (some c) none e = cc
put_front-some (some c) (some h) e = (c, h, refl, refl, cc)

pub modify-Modified :
    (j : ℕ) (f : Client → Option Client) (h : Hub) {h' : Hub}
    → modify j f h ≡ some h'
    → Modified f j h h'
unfolding modify
modify-Modified j f [] is = let e : ◌≡◌ {A = Hub} [] _ = cc in subst (Modified f j []) e past
modify-Modified zero f (c ∷ h) is =
    let (c', e, same) = with_rest-some (f c) h is in subst (Modified f zero (c ∷ h)) same (here e)
modify-Modified (suc j) f (c ∷ h) is =
    let (c', h2, e, rest, same) = put_front-some (some c) (modify j f h) is in
    let client : c ≡ c' = cc in
    subst (Modified f (suc j) (c ∷ h)) (ap (λ x. x ∷ h2) client ∙ same)
      (there (modify-Modified j f h rest))

pub each-Each : (f : Client → Option Client) (h : Hub) {h' : Hub} → each f h ≡ some h' → Each f h h'
unfolding each
each-Each f [] is = let e : ◌≡◌ {A = Hub} [] _ = cc in subst (Each f []) e none_left
each-Each f (c ∷ h) is =
    let (c', h2, e, rest, same) = put_front-some (f c) (each f h) is in
    subst (Each f (c ∷ h)) same (next e (each-Each f h rest))

pub Modified-at :
    {f : Client → Option Client} {j : ℕ} {h h' : Hub} {c : Client}
    → Modified f j h h'
    → (i : ℕ) → get_elem? h i ≡ some c
    → (c' : Client) × (get_elem? h' i ≡ some c') × (((j ≡ i) × (f c ≡ some c')) ⊎ (c ≡ c'))
Modified-at past i at = cc
Modified-at {f} (here {c' = c'} e) zero at =
    (c', refl, inl (refl, ap (λ o. after f o) (sym at) ∙ e))
  where
    after : (Client → Option Client) → Option Client → Option Client
    after g none = none
    after g (some x) = g x
Modified-at (here e) (suc i) at = (_, at, inr refl)
Modified-at (there m) zero at = (_, at, inr refl)
Modified-at (there m) (suc i) at =
    let (c', there', how) = Modified-at m i at in (c', there', later c' how)
  where
    later : {j : ℕ} {P Q : Type 0} (c' : Client) → ((j ≡ i) × P) ⊎ Q → ((suc j ≡ suc i) × P) ⊎ Q
    later c' (inl (same, changed)) = inl (ap suc same, changed)
    later c' (inr kept) = inr kept

pub Each-at :
    {f : Client → Option Client} {h h' : Hub} {c : Client}
    → Each f h h'
    → (i : ℕ) → get_elem? h i ≡ some c
    → (c' : Client) × (get_elem? h' i ≡ some c') × (f c ≡ some c')
Each-at none_left i at = cc
Each-at {f} (next {c = x} {c' = c'} e rest) zero at =
    let same : x ≡ _ = cc in (c', refl, ap f (sym same) ∙ e)
Each-at (next e rest) (suc i) at = Each-at rest i at
