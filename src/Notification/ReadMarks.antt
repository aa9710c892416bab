-- ===== src/Notification/ReadMarks.antt =====
-- What the operations of the inbox do to the messages of their user and of others.
use aio_t_cloud.Base.{
  Text, ◌==◌, ◌&&◌, eq_iff, ℕ, true, false, Option, none, some, List, [], ◌∷◌, All, length, ◌≡◌,
  ◌≢◌, ◌∙◌, refl, sym, ap, arith, inl, inr, Bool-cases, Option-cases, if◌then◌else◌,
}
use aio_t_cloud.Repository.{patch, drop_if}
use aio_t_cloud.Response.{ok}
use aio_t_cloud.Notification.{
  NotificationMessage, NotificationStore, Office, message_row, find_message, is_unread, read_at,
  get_unread_count, mark_message_as_read, mark_all_messages_as_read, delete_message,
}

patched_is_read :
    (now : ℕ) (user_id : Text) (r : Option NotificationMessage) (m : NotificationMessage)
    → patch (is_unread user_id) (read_at now) r ≡ some m
    → is_unread user_id m ≡ false
patched_is_read now user_id none m h = absurd (ground arith)
patched_is_read now user_id (some s) m h = ground arith

module _ {S : NotificationStore} where
  all_read-row :
      (now : ℕ) (user_id i : Text) (o : Office S)
      → message_row i (mark_all_messages_as_read now user_id o).1
        ≡ patch (is_unread user_id) (read_at now) (message_row i o)
  unfolding mark_all_messages_as_read
  all_read-row now user_id i o =
      S.message_repository.row-update (is_unread user_id) (read_at now) o.messages i (λ m. refl)

  no_unread :
      (user_id : Text) (o : Office S)
      → ((i : Text) (m : NotificationMessage)
          → message_row i o ≡ some m
          → is_unread user_id m ≡ false)
      → get_unread_count user_id o ≡ ok 0
  unfolding get_unread_count
  no_unread user_id o h =
      go (S.message_repository.find (is_unread user_id) o.messages)
        (S.message_repository.find_sound (is_unread user_id) o.messages)
    where
      go :
          (ms : List NotificationMessage)
          → All (λ m. (message_row m.id o ≡ some m) × (is_unread user_id m ≡ true)) ms
          → ok (length ms) ≡ ok 0
      go [] _ = refl
      go (m ∷ ms) ((stored, unread), _) = absurd (ground (arith, h m.id m stored))

  -- After a user has marked all messages as read, none of the user's messages is unread, the messages
  -- that were read already and those of other users are as they were, and no message is lost.
  pub mark_all_messages_as_read_lem :
      (now : ℕ) (user_id : Text) (o : Office S)
      → let o' = (mark_all_messages_as_read now user_id o).1 in
        (get_unread_count user_id o' ≡ ok 0)
        × ((i : Text) (m : NotificationMessage)
            → message_row i o ≡ some m
            → message_row i o' ≡ some (if is_unread user_id m then read_at now m else m))
        × ((i : Text) → message_row i o ≡ none → message_row i o' ≡ none)
  mark_all_messages_as_read_lem now user_id o = (
    no_unread user_id (mark_all_messages_as_read now user_id o).1 (λ i m h.
        patched_is_read now user_id (message_row i o) m (sym (all_read-row now user_id i o) ∙ h)),
    λ i m h. all_read-row now user_id i o ∙ ap (patch (is_unread user_id) (read_at now)) h,
    λ i h. all_read-row now user_id i o ∙ ap (patch (is_unread user_id) (read_at now)) h,
  )

  found_message :
      (user_id id : Text) (o : Office S) (m : NotificationMessage)
      → find_message user_id id o ≡ some m
      → (message_row m.id o ≡ some m) × (m.id ≡ id) × (m.user_id ≡ user_id)
  found_message user_id id o m h =
      let (stored, fits) =
        S.message_repository.find_one-some (λ x. x.id == id && x.user_id == user_id) o.messages m
          h in
      (stored, ground (arith, eq_iff m.id id), ground (arith, eq_iff m.user_id user_id))

  -- Marking one message as read and deleting one leave every message of another user as it was,
  -- whichever id the call names.
  pub inbox_confined :
      (now : ℕ) (user_id id i : Text) (o : Office S) (m : NotificationMessage)
      → message_row i o ≡ some m
      → m.user_id ≢ user_id
      → (message_row i (mark_message_as_read now user_id id o).1 ≡ some m)
        × (message_row i (delete_message user_id id o).1 ≡ some m)
  unfolding mark_message_as_read delete_message
  inbox_confined now user_id id i o m stored other =
      elim (Option-cases (find_message user_id id o)) [
        | inl e ↦ (rw (e, mark_message_as_read) stored, rw (e, delete_message) stored)
        | inr (n, e) ↦
            let (there, _, own) = found_message user_id id o n e in
            let apart : (n.id == i) ≡ false =
              ground (arith, eq_iff n.id i, S.message_repository.row-key o.messages i m stored) in
            (
              rw (e, mark_message_as_read)
                  (elim (Bool-cases n.is_read) [
                    | inl already ↦ rw already stored
                    | inr unread ↦ rw unread (
                        S.message_repository.row-save (read_at now n) o.messages i
                        ∙ rw apart stored)
                  ]),
              rw (e, delete_message)
                  (S.message_repository.row-remove (λ x. x.id == n.id) o.messages i
                    ∙ ap (drop_if (λ x. x.id == n.id)) stored
                    ∙ ground (
                      arith,
                      eq_iff m.id n.id,
                      eq_iff n.id i,
                      S.message_repository.row-key o.messages i m stored,
                    )),
            )
      ]
