-- ===== src/Lib.antt =====
-- The game server of the repository keeps dogs that run along the roads of maps, gather loot and hand
-- it in at offices. This library models its core, the C++ code under src/core, the server that answers
-- its requests, the table of retired players with the pool of connections to its data base, and the
-- program from its start to the running server.
--
-- Parts, from the bottom up, each in the file of its name with child modules for its proofs:
-- - Common: errors as values (Common/Errors, the exceptions of src/core/Exceptions.h), `int` with its
--   wrap-around (Common/Int), lists and tests. Float: the operations of `float` as a parameter, with
--   the laws that theorems assume in `IsOrdered`; Float/Fixed is a concrete instance.
-- - Utils: src/core/Utils.h and src/core/Utils.cpp, random numbers (`get_random_int_number`) and the
--   generator of tokens (Utils/Tokens, with proofs in Utils/Digits).
-- - DataTypes: src/core/DataTypes.h and src/core/DataTypes.cpp. DataTypes/Directions has the letters.
-- - MapModel: src/core/MapModel.h and src/core/MapModel.cpp; `Map` is `GameMap`.
-- - Collision: src/core/CollisionDetector.h and src/core/CollisionDetector.cpp. `find_gather_events`
--   has the provider's items and gatherers as lists, `TryCollectPoint` is `try_collect_point`.
-- - LootGenerator: src/core/LootGenerator.h and src/core/LootGenerator.cpp.
-- - Dog: src/core/Dog.h and src/core/Dog.cpp. Dog/Roads has `find_adjacent_roads`.
-- - Session: src/core/GameSession.h and src/core/GameSession.cpp. `MoveDogs` is `move_dogs`, with its
--   loop `move_players`; `GenerateLoot` is `generate_loot`. Session/Looting has the handling of loot.
-- - Game: src/core/Game.h and src/core/Game.cpp. Game/Saving has saved states, Game/RoundTrip
--   their restoring, Game/Retirement the players that leave; `MapStorage` of src/core/MapParser.h is in Game/Data.
--   Game/Rounds is about a tick of all sessions, Game/Entering about players that join.
-- - MapParser: src/core/MapParser.cpp, from the configuration file to the storage of maps.
--   MapParser/Parsed is about one map, MapParser/Storage about the storage.
-- - Request: GetAuthToken of src/utility/utility_functions.h, IsValidAuthToken, and
--   src/serialization/json_loader.cpp. The loop of GetAuthToken has fuel, since it may run
--   without end; one round more than there are spaces is enough where it ends. Request/Parameters
--   has the split of a target and ParseParameters, Request/Numbers numbers in decimal.
-- - Api: the handlers of src/network/api_handler.cpp, from a request to a response and the handler
--   afterwards. Api/Data has the responses, with a body as the data that its text is made from,
--   Api/Records the handler of the records, and Api/Dispatch the choice of the handler. Api/Play has
--   what happens to a game as a step relation, Api/Steps what a handler does in its terms, Api/Sound
--   the games that it leads to, Api/Saved their saved states, and Api/Storage the maps, which no step changes.
-- - Serializer: src/serialization/json_serializer.cpp, the text of a body (`body_text`).
-- - Http: src/network/request_handler.h, `operator()` as `handle_request`. Http/Connection has the
--   server of src/network/http_server.h and src/network/http_server.cpp as a step relation: a step
--   is a callback of a connection (`Turn`), a new connection, the ticker, or an exception; each has its own
--   random numbers and table (`Moment`). An exception ends the program or, in the thread of `main`,
--   leaves the server running on the other threads (`Fail`). Http/Connection/Games has the game of the server, in the terms of Api/Play.
--   Http/Configured is about maps that were read, Http/Stream about `SyncWriteOStreamAdapter`.
-- - Tagged: src/utility/tagged.h and src/utility/tagged_uuid.h, values that a tag keeps apart.
-- - Ticker: src/network/ticker.h, and the handler that `ApiHandler` gives it.
-- - Pool: `ConnectionPool` of src/db/connection_engine.h. Pool/System has the threads that share a
--   pool as a step relation, where a step is what a thread does under the mutex, or `notify_one`;
--   Pool/Singleton is the pool that the program makes.
-- - DataBase: src/db/postgres.h and src/db/postgres.cpp, with `SaveRetiredPlayer` and
--   `GetRetiredPlayers`. DataBase/Pages is about what the pages of the table show, DataBase/Saved about
--   records from saving to showing; DataBase/Ranking and DataBase/Slices have the order and the parts.
-- - EventLog: src/logging/event_logger.cpp, the records of the log.
-- - Main: src/main.cpp, with `ReadJson` of src/core/MapParser.cpp. `set_up` is the `try` block of
--   `main`, `Outcome` how the program goes on. Main/Start is about the server that it starts,
--   Main/Restart about what is saved of it, and Main/Arguments has the command line, which `main` does
--   not read.
-- - Tests: concrete values, and the theorems at such values.
--
-- A game holds sessions, a session players, a player a dog, and a dog its map. A round of the game
-- (`MoveDogs`) goes through all sessions and players: the dog moves, the collision detector finds the
-- items on its way, and these fill the bag or are handed in. A method that changes an object is a
-- function to the new object. Objects behind `std::shared_ptr` are reached from one owner, so they
-- stand there by value; players have an address, by which they are deleted. A map does not change
-- once it is parsed. A connection reads a request, hands it to the request handler, writes the
-- response and reads on; the request handler sends requests for the API to the handler of their
-- endpoint, which works on the game, and answers requests for maps from the storage.
--
-- Numbers: `int` is ℤ, wrapped to 32 bits where the code adds to clocks, scores and ids; sizes are ℕ;
-- `float` and `double` are types with the operations that the code uses, and each theorem names the
-- laws that it needs, which hold of IEEE 754 values, NaN included. A hypothesis `IsNumber` excludes
-- NaN. Milliseconds of the loot generator have no bound. `at` is an access to a vector, undefined
-- outside its bounds. Loops over vectors are recursion on the list. The loop of `PlayerToken::GetToken`
-- has fuel, since it may run for any number of rounds.
--
-- Parameters: the random distributions (`Draw`), `std::sort` (`EventSort`), the generator of tokens
-- (`TokenGenerator`), boost::json (`Json`, `ConfigJson`, `JsonWriter`), libpqxx (`Sql`),
-- boost::uuids (`Uuids`), boost::program_options, what the program finds outside (`World`),
-- boost::urls and the table of retired players (`Outside`), the need to close a connection after a
-- response (`need_eof`, of boost::beast), <cmath> on `double` (`Double`) and the conversion from
-- `float` to `double`.
--
-- Not modelled: sockets and the time-outs of the server, and the text of boost archives.
-- `serialize` of a whole state in src/serialization/game_state_serialization.cpp calls itself, so
-- that the field lists of its parts are never used. Of several faults in one object of the
-- configuration file C++ does not fix which is reported; the model reports the first in the order
-- of the source. A result that is an exception does not tell what had changed when it was thrown:
-- after one the model of the server allows any game with the same maps. A step of the server is a
-- whole callback; the handlers of the API and the ticker share a strand, but the handler of signals
-- does not, and is modelled only where it runs between two of them. `Game::timer_handler` catches
-- all exceptions after such changes, and is left out for that reason.
pub mod Common
pub mod Float
pub mod Utils
pub mod DataTypes
pub mod MapModel
pub mod Collision
pub mod Dog
pub mod LootGenerator
pub mod Session
pub mod Game
pub mod Tests
pub mod Request
pub mod Api
pub mod Pool
pub mod Http
pub mod MapParser
pub mod Serializer
pub mod Ticker
pub mod EventLog
pub mod Main
pub mod DataBase
pub mod Tagged
