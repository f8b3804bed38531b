-- ===== src/EventLog.antt =====
-- src/logging/event_logger.cpp: the records of the event log. `now` is the text of `GetLogTime`, and
-- boost::json the parameter `JsonWriter`; a record is what is handed to boost::log.
use dog_game_cpp.Common.{ℕ, ℤ, pos, List, [], String, str_eq, if◌then◌else◌}
use dog_game_cpp.Serializer.{JsonWriter, set_member}

module _ {F D V : Type 0} (w : JsonWriter F D V) (now : String) where
  -- What all records begin with.
  log_head : String → List (String × V)
  log_head message = set_member "timestamp" (w.text now) (set_member "message" (w.text message) [])

  unfoldable pub log_start_server : String → ℕ → String → V
  unfolding log_head
  log_start_server address port message =
      let data_object =
        set_member "port" (w.number (pos port)) (set_member "address" (w.text address) []) in
      w.object (set_member "data" (w.object data_object) (log_head message))

  unfoldable pub log_server_end : String → ℤ → String → V
  unfolding log_head
  log_server_end message code exception_descr =
      let data_object = set_member "code" (w.number code) [] in
      let described =
        if str_eq exception_descr ""
        then data_object
        else set_member "exception" (w.text exception_descr) data_object in
      w.object (set_member "data" (w.object described) (log_head message))

  unfoldable pub log_server_request_received : String → String → V
  unfolding log_head
  log_server_request_received uri http_method =
      let data_object =
        set_member "method" (w.text http_method) (set_member "URI" (w.text uri) []) in
      w.object (set_member "data" (w.object data_object) (log_head "request received"))

  unfoldable pub log_server_respond_send : ℤ → ℕ → String → V
  unfolding log_head
  log_server_respond_send response_time code content_type =
      let data_object = set_member "content_type" (w.text content_type) (
        set_member "code" (w.number (pos code))
          (set_member "response_time" (w.number response_time) [])) in
      w.object (set_member "data" (w.object data_object) (log_head "response sent"))
