-- ===== src/Tests/Notices.antt =====
-- Notifications run on concrete tables.
use aio_t_cloud.Base.{codes, ◌==◌, eq_iff, true, false, none, some, ◌≡◌, ◌≢◌, [], ◌∷◌, refl, arith}
use aio_t_cloud.Constants.{web_push, sent}
use aio_t_cloud.Repository.Rows.{rows_repository}
use aio_t_cloud.Notification.{
  NotificationStore, NotificationConfig, NotificationMessage, Office, Notice, Outside, answered,
  thrown, web_push_tokens, message_row, config_row, find_config, mark_message_as_read,
  delete_message, register_web_push_token, unregister_web_push_token,
}
use aio_t_cloud.Notification.ReadMarks.{inbox_confined}
use aio_t_cloud.Notification.Tokens.{
  HasOneConfig, unregister_web_push_token-register_web_push_token,
}
use aio_t_cloud.Tests.{owner}

abbrev office_rows : NotificationStore
office_rows = record {
  config_repository = rows_repository (λ c. c.id);
  message_repository = rows_repository (λ m. m.id);
}

abbrev browser : NotificationConfig
browser = record {
  id = codes "c1";
  user_id = owner;
  channel = web_push;
  config = some (web_push_tokens (codes "token-1" ∷ []));
  message_template = some (codes "Plant: {{message}}");
  is_enabled = true;
}

abbrev greeting : NotificationMessage
greeting = record {
  id = codes "m1";
  created_at = 1000;
  user_id = owner;
  channel = web_push;
  message = codes "hello";
  status = sent;
  error = none;
  device_id = none;
  is_read = false;
  read_at = none;
}

abbrev office : Office office_rows
office = record { configs = browser ∷ []; messages = greeting ∷ []; created = []; handed = [] }

-- Firebase answers that the only token is stale.
abbrev services : Outside
services = record {
  zalo_enabled = true;
  has_send_message_url = true;
  zalo_answer = λ _. thrown (codes "down");
  firebase_enabled = true;
  has_firebase_app = true;
  firebase_answer = λ _. answered (some (codes "messaging/registration-token-not-registered") ∷ []);
  has_sender = λ _. true;
}

abbrev notice : Notice
notice = record {
  user_id = owner;
  message = codes "too hot";
  channels = none;
  device_id = some (codes "d1");
}

greeting_there : message_row (codes "m1") office ≡ some greeting
unfolding ◌==◌
greeting_there = refl

stranger_differs : owner ≢ codes "user-2"
stranger_differs = ground arith

inbox_confined_example :
    (message_row (codes "m1") (mark_message_as_read 9000 (codes "user-2") (codes "m1") office).1
      ≡ some greeting)
    × (message_row (codes "m1") (delete_message (codes "user-2") (codes "m1") office).1
        ≡ some greeting)
inbox_confined_example =
    inbox_confined 9000 (codes "user-2") (codes "m1") (codes "m1") office greeting greeting_there
      stranger_differs

office-HasOneConfig : HasOneConfig office
office-HasOneConfig i j a b h k _ _ = ground (arith, eq_iff (codes "c1") i, eq_iff (codes "c1") j)

browser_found : find_config owner web_push office ≡ some browser
unfolding ◌==◌
browser_found = refl

token_new : (codes "token-1" == codes "token-2") ≡ false
unfolding ◌==◌
token_new = refl

unregister_web_push_token-register_web_push_token_example :
    config_row
      (codes "c1")
      (unregister_web_push_token owner
        (codes "token-2")
        (register_web_push_token owner (codes "token-2") office).1).1
    ≡ config_row (codes "c1") office
unfolding ◌==◌
unregister_web_push_token-register_web_push_token_example =
    unregister_web_push_token-register_web_push_token owner (codes "token-2") (codes "c1") office
      browser (codes "token-1") [] office-HasOneConfig browser_found refl refl
