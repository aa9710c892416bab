-- ===== src/Notification/History.antt =====
-- What `sendWarning` leaves behind: one event, one call of a sender per recipient, and a row of the
-- history for each.
use aio_t_cloud.Base.{Text, ◌++◌, ℕ, false, none, some, List, [], ◌∷◌, ◌⊎◌, suc, length, map, ◌≡◌}
use aio_t_cloud.Notification.Sending.{thrown_by}
use aio_t_cloud.Constants.{sent, undelivered}
use aio_t_cloud.Notification.{
  NotificationConfig, NotificationMessage, NotificationStore, Office, Handed, Outside, Notice,
  rendered_message, message_row,
}

-- What a recipient is handed.
abbrev pub handing : Notice → NotificationConfig → Handed
handing n c = record { channel = c.channel; text = rendered_message c n.message }

module _ {S : NotificationStore} where
  -- No row of the history is changed or lost.
  abbrev pub KeepsHistory : Office S → Office S → Type 0
  KeepsHistory o o' =
      (i : Text) (m : NotificationMessage) → message_row i o ≡ some m → message_row i o' ≡ some m

  -- A new row of the history that tells of a notice's delivery by the k-th call.
  pub record HasEntry (e : Outside) (n : Notice) (k : ℕ) (o o' : Office S) (c : NotificationConfig)
      : Type 0 where
    pub id : Text
    pub entry : NotificationMessage
    pub fresh : message_row id o ≡ none
    pub stored : message_row id o' ≡ some entry
    pub addressed : (entry.user_id ≡ n.user_id) × (entry.channel ≡ c.channel)
    pub told : (entry.message ≡ rendered_message c n.message) × (entry.device_id ≡ n.device_id)
    pub outcome :
        (entry.error ≡ thrown_by e c k)
        × (((thrown_by e c k ≡ none) × (entry.status ≡ sent))
            ⊎ ((m : Text) × (thrown_by e c k ≡ some m) × (entry.status ≡ undelivered)))
    pub unread : entry.is_read ≡ false

  record IsNoted (e : Outside) (n : Notice) (c : NotificationConfig) (o o' : Office S)
      : Type 0 where
    created : o'.created ≡ o.created
    handed : o'.handed ≡ o.handed ++ handing n c ∷ []
    history : KeepsHistory o o'
    entry : HasEntry e n (length o.handed) o o' c

  -- An entry for each recipient, by one call after the other from the k-th on.
  abbrev pub HasEntries :
      Outside → Notice → ℕ → Office S → Office S → List NotificationConfig → Type 0
  HasEntries e n k o o' [] = Unit
  HasEntries e n k o o' (c ∷ cs) = HasEntry e n k o o' c × HasEntries e n (suc k) o o' cs

  -- The outcome of a notice for the recipients it was delivered to.
  pub record IsDelivered (e : Outside) (n : Notice) (cs : List NotificationConfig) (o o' : Office S)
      : Type 0 where
    pub handed : o'.handed ≡ o.handed ++ map (handing n) cs
    pub history : KeepsHistory o o'
    pub entries : HasEntries e n (length o.handed) o o' cs
