-- ===== src/Game/Joining.antt =====
-- Joining a game: `Game::add_player` of src/core/Game.cpp.
use dog_game_cpp.Common.{
  lookup, ℤ, ◌≡◌, refl, ◌∙◌, inl, inr, Bool, true, false, List, [], ◌∷◌, ◌++◌, some, none, String,
  str_eq, eq_iff, eq_refl, if◌then◌else◌, arith, ok, err, find_if, any_of, Bool-cases, Option-cases,
  empty_name, out_of_range,
}
use dog_game_cpp.Float.{Float}
use dog_game_cpp.LootGenerator.{Double}
use dog_game_cpp.MapModel.{GameMap}
use dog_game_cpp.Session.Data.{GameSession, make_session}
use dog_game_cpp.Session
use dog_game_cpp.Session.{has_player_with_auth_token}
use dog_game_cpp.Session.Players.{
  any_of-append, any_of-find_if, find_if-none, add_player_lem, add_player-map_id,
}
use dog_game_cpp.Game.Data.{Game, TokenGenerator}
use dog_game_cpp.Game.{
  is_on_map, has_token, find_session, has_session_with_auth_info, replace_session, open_session,
  add_player,
}

module _ {F D : Type 0} where
  any_of-replace_session :
      (p : GameSession F D → Bool) (id : String) (s' : GameSession F D)
      (ss : List (GameSession F D))
      → any_of (is_on_map id) ss ≡ true
      → p s' ≡ true
      → any_of p (replace_session id s' ss) ≡ true
  unfolding replace_session
  any_of-replace_session p id s' [] h e = cc
  any_of-replace_session p id s' (s ∷ ss) h e = ground (arith, any_of-replace_session p id s' ss)

  -- No two sessions are on the same map.
  abbrev pub MapsDistinct : List (GameSession F D) → Type 0
  MapsDistinct [] = Unit
  MapsDistinct (s ∷ ss) = (any_of (is_on_map s.map_id) ss ≡ false) × MapsDistinct ss

  MapsDistinct-append :
      (ss : List (GameSession F D)) (s : GameSession F D)
      → any_of (is_on_map s.map_id) ss ≡ false
      → MapsDistinct ss
      → MapsDistinct (ss ++ s ∷ [])
  MapsDistinct-append [] s e d = (refl, tt)
  MapsDistinct-append (x ∷ ss) s e d = (
    ground (
      arith,
      any_of-append (is_on_map x.map_id) ss (s ∷ []),
      eq_iff s.map_id x.map_id,
      eq_iff x.map_id s.map_id,
    ),
    MapsDistinct-append ss s (ground arith) d.1,
  )

  -- Replacing a session by one on the same map changes no map.
  is_on_map-replace_session :
      (id j : String) (s' : GameSession F D) (ss : List (GameSession F D))
      → s'.map_id ≡ id
      → any_of (is_on_map j) (replace_session id s' ss) ≡ any_of (is_on_map j) ss
  unfolding replace_session
  is_on_map-replace_session id j s' [] e = refl
  is_on_map-replace_session id j s' (s ∷ ss) e =
      ground (arith, eq_iff s.map_id id, is_on_map-replace_session id j s' ss e)

  MapsDistinct-replace_session :
      (id : String) (s' : GameSession F D) (ss : List (GameSession F D))
      → s'.map_id ≡ id
      → MapsDistinct ss
      → MapsDistinct (replace_session id s' ss)
  unfolding replace_session
  MapsDistinct-replace_session id s' [] e d = tt
  MapsDistinct-replace_session id s' (s ∷ ss) e d = ground (
    arith,
    eq_iff s.map_id id,
    is_on_map-replace_session id s.map_id s' ss e,
    MapsDistinct-replace_session id s' ss e d.1,
  )

  found_map :
      (id : String) (ss : List (GameSession F D)) {s : GameSession F D}
      → find_if (is_on_map id) ss ≡ some s
      → s.map_id ≡ id
  found_map id [] e = cc
  found_map id (x ∷ ss) {s} e = ground (arith, eq_iff x.map_id id, found_map id ss {s = s})

  -- What `open_session` gives: a session on the map, which stands in sessions that are still on
  -- distinct maps.
  record IsOpened (id : String) (session : GameSession F D) (sessions : List (GameSession F D))
      : Type 0 where
    map_is : session.map_id ≡ id
    stands : any_of (is_on_map id) sessions ≡ true
    distinct : MapsDistinct sessions

module _ {F D G : Type 0} ⦃f : Float F⦄ ⦃d : Double D⦄ (to_double : F → D) where
  open_session-IsOpened :
      (g : Game F D G) (id : String)
      → MapsDistinct g.sessions
      → let (session, sessions) = open_session to_double g id in IsOpened id session sessions
  unfolding open_session find_session make_session
  open_session-IsOpened g id d = elim (Option-cases (find_if (is_on_map id) g.sessions)) [
    | inl e ↦
        let none_there = find_if-none (is_on_map id) g.sessions e in
        let s = make_session to_double id g.loot_period g.loot_probability in
        rw (e, open_session)
          (record {
            map_is = refl;
            stands = ground (arith, any_of-append (is_on_map id) g.sessions (s ∷ []), eq_refl id);
            distinct = MapsDistinct-append g.sessions s none_there d;
          })
    | inr (s, e) ↦
        rw (e, open_session)
          (record {
            map_is = found_map id g.sessions e;
            stands = any_of-find_if (is_on_map id) g.sessions e;
            distinct = d;
          })
  ]

  module _ ⦃t : TokenGenerator G⦄ where
    -- Without a name the answer is `EmptyNameException`; with a name and an unknown map it is the
    -- `std::out_of_range` of `std::map::at`, and never `MapNotFoundException`.
    pub add_player_refuses :
        (g : Game F D G) (id name : String)
        → lookup id g.storage.maps ≡ none
        → add_player to_double g id name ≡ err (if str_eq name "" then empty_name else out_of_range)
    unfolding add_player
    add_player_refuses g id name e = elim (Bool-cases (str_eq name "")) [
      | inl empty ↦ rw empty
      | inr named ↦ rw (named, e)
    ]

    -- With a name and a known map a player joins: the game knows the token that is returned, and if no
    -- two sessions were on the same map, then no two are afterwards, and one is on the player's map.
    pub add_player_joins :
        (g : Game F D G) (id name : String) (m : GameMap F)
        → str_eq name "" ≡ false
        → lookup id g.storage.maps ≡ some m
        → MapsDistinct g.sessions
        → (g' : Game F D G) × (token : String) × (player : ℤ) × (add_player to_double g id name
            ≡ ok (g', (token, player)))
          × (has_session_with_auth_info g' token ≡ true)
          × (any_of (is_on_map id) g'.sessions ≡ true)
          × MapsDistinct g'.sessions
    unfolding add_player has_session_with_auth_info
    add_player_joins g id name m named e d =
        let opened = open_session-IsOpened g id d in
        let (session, sessions) = open_session to_double g id in
        let (token, generator) = t.get_token g.generator in
        let spawn = g.spawn_in_random_points in
        let capacity = g.storage.default_bag_capacity in
        let (session', player) = Session.add_player session name m token spawn capacity in
        let (_, knows, _) = add_player_lem session name m token spawn capacity in
        let map_is = add_player-map_id session name m token spawn capacity ∙ opened.map_is in
        let sessions' = replace_session id session' sessions in
        (
          record g { sessions = sessions'; generator = generator },
          player.token,
          player.id,
          rw (named, e),
          any_of-replace_session (has_token player.token) id session' sessions opened.stands knows,
          is_on_map-replace_session id id session' sessions map_is ∙ opened.stands,
          MapsDistinct-replace_session id session' sessions map_is opened.distinct,
        )
