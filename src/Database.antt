-- ===== src/Database.antt =====
-- The state that the services share: the tables, the domain events emitted so far, and what has been
-- published to the two brokers. The event emitter, the brokers and the database are parameters of
-- the program; a handler is a function on this state.
mod Events
mod Messages
pub use Events.*
pub use Messages.*
use aio_t_cloud.Base.{
  Text, ◌==◌, ◌&&◌, ℕ, suc, Bool, true, false, Option, none, some, List, [], ◌∷◌, ◌++◌,
}
use aio_t_cloud.Entities.{
  Device, DeviceTemplate, DeviceTelemetry, UnclaimedDevice, Firmware, DeviceOtaUpdate, Asset,
}
use aio_t_cloud.Repository.{Repository}

-- The injected repositories.
pub record Store : Type 1 where
  pub device_repository : Repository Device (λ d. d.id)
  pub template_repository : Repository DeviceTemplate (λ t. t.id)
  pub telemetry_repository : Repository DeviceTelemetry (λ t. t.id)
  pub unclaimed_repository : Repository UnclaimedDevice (λ u. u.id)
  pub firmware_repository : Repository Firmware (λ f. f.id)
  pub ota_update_repository : Repository DeviceOtaUpdate (λ u. u.id)
  pub asset_repository : Repository Asset (λ a. a.id)

pub record World (S : Store) : Type 0 where
  pub devices : S.device_repository.Table
  pub templates : S.template_repository.Table
  pub telemetry : S.telemetry_repository.Table
  pub unclaimed : S.unclaimed_repository.Table
  pub firmwares : S.firmware_repository.Table
  pub ota_updates : S.ota_update_repository.Table
  pub assets : S.asset_repository.Table
  pub emitted : List Event
  pub published : List Publish
  pub attempts : ℕ

module _ {S : Store} where
  -- `eventEmitter.emit(name, event)`
  abbrev pub emit : Event → World S → World S
  emit e w = record w { emitted = w.emitted ++ e ∷ [] }

  -- A send that the broker takes or refuses; a refusal is the exception of the client library.
  abbrev pub attempt : Bool → Publish → World S → Bool × World S
  attempt true m w =
      (true, record w { published = w.published ++ m ∷ []; attempts = suc w.attempts })
  attempt false m w = (false, record w { attempts = suc w.attempts })

  -- `kafkaProducerService.send(topic, value, key)`; `false` is an exception.
  abbrev pub kafka_send : Brokers → Text → Payload → World S → Bool × World S
  kafka_send b topic value w = attempt (b.kafka_accepts w.attempts) (kafka topic value) w

  -- `mqttProducerService.publish(topic, payload)`; `false` is an exception.
  abbrev pub mqtt_publish : Brokers → Text → Payload → World S → Bool × World S
  mqtt_publish b topic value w = attempt (b.mqtt_accepts w.attempts) (mqtt topic value) w

  -- `deviceRepository.findOneBy({ deviceId })`
  abbrev pub find_by_device_id : Text → World S → Option Device
  find_by_device_id device_id w =
      S.device_repository.find_one (λ d. d.device_id == device_id) w.devices

  -- `deviceRepository.findOneBy({ id, userId })`
  abbrev pub find_owned : Text → Text → World S → Option Device
  find_owned user_id id w =
      S.device_repository.find_one (λ d. d.id == id && d.user_id == user_id) w.devices

  -- The relation `template`, loaded along with a device.
  abbrev pub template_of : Device → World S → Option DeviceTemplate
  template_of d w = S.template_repository.row w.templates d.template_id

  -- `deviceRepository.update(id, changes)`
  abbrev pub update_device : Text → (Device → Device) → World S → World S
  update_device id change w = record w {
    devices = S.device_repository.update (λ d. d.id == id) change w.devices;
  }

  -- `deviceRepository.save(device)`
  abbrev pub save_device : Device → World S → World S
  save_device d w = record w { devices = S.device_repository.save d w.devices }

  -- The device with a primary key.
  abbrev pub device_row : Text → World S → Option Device
  device_row id w = S.device_repository.row w.devices id
