-- ===== src/Game/Names.antt =====
-- What the operations of src/core/Game.cpp leave of the names of players and of the maps of sessions.
use dog_game_cpp.Common.{
  ℕ, zero, suc, ◌≡◌, refl, sym, ap, ◌∙◌, inl, inr, ℤ, List, [], ◌∷◌, map, Option, String, Result,
  ok, >>=-eq-ok, ok_injective, any_of, Bool-cases,
}
use dog_game_cpp.Float.{Float}
use dog_game_cpp.DataTypes.{LootInfo}
use dog_game_cpp.MapModel.{GameMap}
use dog_game_cpp.Collision.{EventSort}
use dog_game_cpp.LootGenerator.{Double}
use dog_game_cpp.Session.Data.{Player, GameSession, has_name}
use dog_game_cpp.Session.Looting.{LootDraw, generate_loot_info}
use dog_game_cpp.Session
use dog_game_cpp.Session.{generate_loots, move_dog, move_players}
use dog_game_cpp.Session.Players.{NamesDistinct}
use dog_game_cpp.Game.{each_session}

module _ {F : Type 0} where
  abbrev pub names_of : List (Player F) → List String
  names_of = map (λ p. p.name)

  any_of-names_of :
      (name : String) (ps ps' : List (Player F))
      → names_of ps' ≡ names_of ps
      → any_of (has_name name) ps' ≡ any_of (has_name name) ps
  any_of-names_of name [] [] e = refl
  any_of-names_of name [] (p' ∷ ps') e = cc
  any_of-names_of name (p ∷ ps) [] e = cc
  any_of-names_of name (p ∷ ps) (p' ∷ ps') e =
      let same : p'.name ≡ p.name = cc in
      let rest : names_of ps' ≡ names_of ps = cc in rw (same, any_of-names_of name ps ps' rest) refl

  pub NamesDistinct-names_of :
      (ps ps' : List (Player F)) → names_of ps' ≡ names_of ps → NamesDistinct ps → NamesDistinct ps'
  NamesDistinct-names_of [] [] e d = tt
  NamesDistinct-names_of [] (p' ∷ ps') e d = cc
  NamesDistinct-names_of (p ∷ ps) [] e d = cc
  NamesDistinct-names_of (p ∷ ps) (p' ∷ ps') e (d, ds) =
      let same : p'.name ≡ p.name = cc in
      let rest : names_of ps' ≡ names_of ps = cc in
      (rw same (any_of-names_of p.name ps ps' rest ∙ d), NamesDistinct-names_of ps ps' rest ds)

module _ {F : Type 0} ⦃f : Float F⦄ ⦃sort : EventSort F⦄ where
  move_players-names_of :
      (delta_time : ℤ) (m : Option (GameMap F)) (loots : List (LootInfo F)) (ps : List (Player F))
      {moved : List (Player F) × List (LootInfo F)}
      → move_players delta_time m loots ps ≡ ok moved
      → names_of moved.0 ≡ names_of ps
  unfolding move_players
  move_players-names_of delta_time m loots [] e =
      sym (ap (λ (x : List (Player F) × List (LootInfo F)). names_of x.0) (ok_injective e))
  move_players-names_of delta_time m loots (p ∷ ps) {moved} e =
      let (r, _, q) = >>=-eq-ok (move_dog delta_time m loots p.dog) _ e in
      elim (Bool-cases r.2) [
        | inl on ↦
            let q' = rw on at q in
            let (rest, k, t) = >>=-eq-ok (move_players delta_time m r.1 ps) _ q' in
            sym (ap (λ (x : List (Player F) × List (LootInfo F)). names_of x.0) (ok_injective t))
            ∙ ap (λ x. p.name ∷ x) (move_players-names_of delta_time m r.1 ps k)
        | inr off ↦
            let q' = rw off at q in
            sym (ap (λ (x : List (Player F) × List (LootInfo F)). names_of x.0) (ok_injective q'))
      ]

module _ {F D : Type 0} where
  -- The map of a session and the names of its players.
  abbrev pub view : GameSession F D → String × List String
  view s = (s.map_id, names_of s.players)

  pub each_session-view :
      (step : ℕ → GameSession F D → Result (GameSession F D)) (i : ℕ) (ss : List (GameSession F D))
      {ss' : List (GameSession F D)}
      → ((k : ℕ) (s s' : GameSession F D) → step k s ≡ ok s' → view s' ≡ view s)
      → each_session step i ss ≡ ok ss'
      → map view ss' ≡ map view ss
  unfolding each_session
  each_session-view step i [] kept e = sym (ap (map view) (ok_injective e))
  each_session-view step i (s ∷ ss) kept e =
      let (s', k, e1) = >>=-eq-ok (step i s) _ e in
      let (ss', r, e2) = >>=-eq-ok (each_session step (suc i) ss) _ e1 in
      sym (ap (map view) (ok_injective e2))
      ∙ rw (kept i s s' k, each_session-view step (suc i) ss kept r) refl

module _ {F D : Type 0} ⦃f : Float F⦄ where
  generate_loots-view :
      (draws : ℕ → LootDraw F) (n : ℕ) (s : GameSession F D) (m : GameMap F) {s' : GameSession F D}
      → generate_loots draws n s m ≡ ok s'
      → view s' ≡ view s
  unfolding generate_loots
  generate_loots-view draws zero s m e = sym (ap view (ok_injective e))
  generate_loots-view draws (suc n) s m e =
      let (l, _, q) = >>=-eq-ok (generate_loot_info (draws n) s.loot_id m) _ e in
      generate_loots-view draws n _ m q

  pub generate_loot-view :
      ⦃d : Double D⦄
      → (draws : ℕ → LootDraw F) (s : GameSession F D) (delta_time : ℤ) (m : GameMap F)
        {s' : GameSession F D}
      → Session.generate_loot draws s delta_time m ≡ ok s'
      → view s' ≡ view s
  unfolding Session.generate_loot
  generate_loot-view draws s delta_time m e = generate_loots-view draws _ _ m e

  pub move_dogs-view :
      ⦃sort : EventSort F⦄
      → (s : GameSession F D) (delta_time : ℤ) {s' : GameSession F D}
      → Session.move_dogs s delta_time ≡ ok s'
      → view s' ≡ view s
  unfolding Session.move_dogs
  move_dogs-view s delta_time e =
      let (x, k, q) = >>=-eq-ok (move_players delta_time s.map s.loots_info s.players) _ e in
      sym (ap view (ok_injective q))
      ∙ ap (λ names. (s.map_id, names))
          (move_players-names_of delta_time s.map s.loots_info s.players k)
