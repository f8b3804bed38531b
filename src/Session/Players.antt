-- ===== src/Session/Players.antt =====
-- Joining and finding: `add_player`, `GetPlayerWithAuthToken` and `delete_player` of
-- src/core/GameSession.cpp.
use dog_game_cpp.Common.{
  suc, ◌≡◌, refl, inl, inr, ℤ, pos, int_add, Bool, true, false, List, [], ◌∷◌, ◌++◌, some, none,
  String, eq_iff, eq_refl, if◌then◌else◌, arith, find_if, any_of, Option-cases,
}
use dog_game_cpp.Float.{Float}
use dog_game_cpp.MapModel.{GameMap}
use dog_game_cpp.Session.Data.{Player, GameSession, has_name, has_token}
use dog_game_cpp.Session.{make_player, add_player, has_player_with_auth_token}

pub any_of-append {ℓ} :
    {A : Type ℓ} (p : A → Bool) (xs ys : List A)
    → any_of p (xs ++ ys) ≡ (if any_of p xs then true else any_of p ys)
any_of-append p [] ys = refl
any_of-append p (x ∷ xs) ys = ground (arith, any_of-append p xs ys)

pub any_of-find_if {ℓ} :
    {A : Type ℓ} (p : A → Bool) (xs : List A) {x : A} → find_if p xs ≡ some x → any_of p xs ≡ true
any_of-find_if p [] e = cc
any_of-find_if p (y ∷ xs) {x} e = ground (arith, any_of-find_if p xs {x = x})

pub find_if-none {ℓ} :
    {A : Type ℓ} (p : A → Bool) (xs : List A) → find_if p xs ≡ none → any_of p xs ≡ false
find_if-none p [] e = refl
find_if-none p (x ∷ xs) e = ground (arith, find_if-none p xs)

find_if-append_last {ℓ} :
    {A : Type ℓ} (p : A → Bool) (xs : List A) (x : A)
    → any_of p xs ≡ false
    → p x ≡ true
    → find_if p (xs ++ x ∷ []) ≡ some x
find_if-append_last p [] x e h = ground arith
find_if-append_last p (y ∷ xs) x e h = ground (arith, find_if-append_last p xs x)

module _ {F : Type 0} where
  found_name :
      (name : String) (ps : List (Player F)) {p : Player F}
      → find_if (has_name name) ps ≡ some p
      → p.name ≡ name
  found_name name [] e = cc
  found_name name (x ∷ ps) {p} e = ground (arith, eq_iff x.name name, found_name name ps {p = p})

  found_token :
      (name : String) (ps : List (Player F)) {p : Player F}
      → find_if (has_name name) ps ≡ some p
      → any_of (has_token p.token) ps ≡ true
  found_token name [] e = cc
  found_token name (x ∷ ps) {p} e = ground (arith, eq_refl p.token, found_token name ps {p = p})

  -- No two players have the same name.
  abbrev pub NamesDistinct : List (Player F) → Type 0
  NamesDistinct [] = Unit
  NamesDistinct (p ∷ ps) = (any_of (has_name p.name) ps ≡ false) × NamesDistinct ps

  NamesDistinct-append :
      (ps : List (Player F)) (p : Player F)
      → any_of (has_name p.name) ps ≡ false
      → NamesDistinct ps
      → NamesDistinct (ps ++ p ∷ [])
  NamesDistinct-append [] p e d = (refl, tt)
  NamesDistinct-append (x ∷ ps) p e d = (
    ground (
      arith,
      any_of-append (has_name x.name) ps (p ∷ []),
      eq_iff p.name x.name,
      eq_iff x.name p.name,
    ),
    NamesDistinct-append ps p (ground arith) d.1,
  )

module _ {F D : Type 0} ⦃f : Float F⦄ where
  module _ (s : GameSession F D) (name : String) (m : GameMap F) (token : String) (spawn : Bool)
      (capacity : ℤ) where
    -- The session after a new player has joined.
    abbrev pub joined : GameSession F D
    joined = record s {
      map = some m;
      players = s.players ++ make_player s name m token capacity ∷ [];
      player_id = int_add s.player_id (pos 1);
      allocated = suc s.allocated;
    }

    pub add_player_new :
        find_if (has_name name) s.players ≡ none
        → add_player s name m token spawn capacity ≡ (joined, make_player s name m token capacity)
    unfolding add_player
    add_player_new e = rw (e, add_player)

    add_player_known :
        {p : Player F}
        → find_if (has_name name) s.players ≡ some p
        → add_player s name m token spawn capacity ≡ (record s { map = some m }, p)
    unfolding add_player
    add_player_known e = rw (e, add_player)

    pub add_player-map_id : (add_player s name m token spawn capacity).0.map_id ≡ s.map_id
    add_player-map_id = elim (Option-cases (find_if (has_name name) s.players)) [
      | inl e ↦ rw (add_player_new e)
      | inr (p, e) ↦ rw (add_player_known e)
    ]

    -- `add_player` returns a player of the given name whose token the session knows afterwards. A
    -- known name leaves the players as they were; a new one puts the new player last.
    pub add_player_lem :
        let (s', p) = add_player s name m token spawn capacity in
        (p.name ≡ name)
        × (has_player_with_auth_token s' p.token ≡ true)
        × (s'.players
            ≡ (if any_of (has_name name) s.players then s.players else s.players ++ p ∷ []))
    unfolding has_player_with_auth_token make_player
    add_player_lem = elim (Option-cases (find_if (has_name name) s.players)) [
      | inl e ↦
          let p = make_player s name m token capacity in
          rw (add_player_new e, find_if-none (has_name name) s.players e)
            (
              refl,
              ground (arith, eq_refl token, any_of-append (has_token token) s.players (p ∷ [])),
              refl,
            )
      | inr (p, e) ↦
          rw (add_player_known e, any_of-find_if (has_name name) s.players e)
            (found_name name s.players e, found_token name s.players e, refl)
    ]

    -- If no two players of the session have the same name, that holds after `add_player` too.
    pub add_player-NamesDistinct :
        NamesDistinct s.players → NamesDistinct (add_player s name m token spawn capacity).0.players
    unfolding make_player
    add_player-NamesDistinct d = elim (Option-cases (find_if (has_name name) s.players)) [
      | inl e ↦ rw (add_player_new e) (
          NamesDistinct-append s.players (make_player s name m token capacity)
            (find_if-none (has_name name) s.players e) d)
      | inr (p, e) ↦ rw (add_player_known e) d
    ]

  -- A second `add_player` with the same name, whatever token is drawn for it, returns the player that
  -- the first one returned, and leaves the players as they are.
  pub add_player_again :
      (s : GameSession F D) (name : String) (m : GameMap F) (token token' : String)
      (spawn spawn' : Bool) (capacity capacity' : ℤ)
      → let (s', p) = add_player s name m token spawn capacity in
        let (s'', q) = add_player s' name m token' spawn' capacity' in
        (q ≡ p) × (s''.players ≡ s'.players)
  unfolding make_player
  add_player_again s name m token token' spawn spawn' capacity capacity' =
      elim (Option-cases (find_if (has_name name) s.players)) [
        | inl e ↦
            let s1 = joined s name m token spawn capacity in
            let found =
              find_if-append_last (has_name name) s.players (make_player s name m token capacity)
                (find_if-none (has_name name) s.players e) (eq_refl name) in
            rw
              (
                add_player_new s name m token spawn capacity e,
                add_player_known s1 name m token' spawn' capacity' found,
              )
              (refl, refl)
        | inr (p, e) ↦
            rw
              (
                add_player_known s name m token spawn capacity e,
                add_player_known (record s { map = some m }) name m token' spawn' capacity' e,
              )
              (refl, refl)
      ]
