-- ===== src/Notification/Inbox.antt =====
-- The inbox of a user: the read marks and deletions. The paged list is not modelled.
use aio_t_cloud.Base.{
  Text, codes, ◌==◌, ◌&&◌, ℕ, Bool, true, not, Option, none, some, length, if◌then◌else◌,
}
use aio_t_cloud.Constants.{not_found}
use aio_t_cloud.Response.{Response, ok, fail}
use aio_t_cloud.Notification.Rows.{NotificationMessage, NotificationStore, Office}

abbrev pub is_unread : Text → NotificationMessage → Bool
is_unread user_id m = m.user_id == user_id && not m.is_read

abbrev pub read_at : ℕ → NotificationMessage → NotificationMessage
read_at now m = record m { is_read = true; read_at = some now }

module _ {S : NotificationStore} where
  -- `findOneBy({ id, userId })`
  abbrev pub find_message : Text → Text → Office S → Option NotificationMessage
  find_message user_id id o =
      S.message_repository.find_one (λ m. m.id == id && m.user_id == user_id) o.messages

  -- `getUnreadCount`
  unfoldable pub get_unread_count : Text → Office S → Response ℕ
  get_unread_count user_id o =
      ok (length (S.message_repository.find (is_unread user_id) o.messages))

  -- `markMessageAsRead`
  unfoldable pub mark_message_as_read :
      ℕ → Text → Text → Office S → Response NotificationMessage × Office S
  mark_message_as_read now user_id id o = elim (find_message user_id id o) [
    | none ↦ (fail not_found (codes "error.notificationMessageNotFound"), o)
    | some m ↦ if m.is_read then (ok m, o) else (
      ok (read_at now m),
      record o { messages = S.message_repository.save (read_at now m) o.messages },
    )
  ]

  -- `markAllMessagesAsRead`
  unfoldable pub mark_all_messages_as_read : ℕ → Text → Office S → Response (Unit {0}) × Office S
  mark_all_messages_as_read now user_id o = (
    ok tt,
    record o {
      messages = S.message_repository.update (is_unread user_id) (read_at now) o.messages;
    },
  )

  -- `deleteMessage`
  unfoldable pub delete_message : Text → Text → Office S → Response (Unit {0}) × Office S
  delete_message user_id id o = elim (find_message user_id id o) [
    | none ↦ (fail not_found (codes "error.notificationMessageNotFound"), o)
    | some m ↦
        (ok tt, record o { messages = S.message_repository.remove (λ x. x.id == m.id) o.messages })
  ]
