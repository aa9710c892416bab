-- ===== src/Tests/Stock.antt =====
-- The catalogue runs on the concrete data.
use aio_t_cloud.Base.{
  Text, codes, ◌==◌, eq_iff, Bool-cases, inl, inr, ap, sym, true, some, none, is_some, ◌≡◌, arith,
  [], ◌∷◌,
}
use aio_t_cloud.Entities.{Device, Firmware}
use aio_t_cloud.Database.{World, device_row}
use aio_t_cloud.Catalogue.{
  Hosting, upload_firmware, delete_device_template, template_row, firmware_row,
}
use aio_t_cloud.Catalogue.Links.{
  HasTemplates, CatalogueRun, begin, and_then_step, uploading, untemplating,
  CatalogueRun-HasTemplates,
}
use aio_t_cloud.Tests.{rows, owner, pump, fan, update, world}

abbrev hosting : Hosting
hosting = record { digest = λ bytes. codes "digest"; public_url = codes "https://host" }

-- A build is uploaded, and the template in use is not deleted.
abbrev grown : World rows
grown =
    (upload_firmware hosting 9000 owner (codes "template-1") (codes "3.0") none (codes "f.bin")
      (7 ∷ []) world).2

abbrev kept : World rows
kept = (delete_device_template (codes "template-1") grown).1

relay_there : (i : Text) → i ≡ codes "template-1" → is_some (template_row i world) ≡ true
relay_there i e = ground (arith, eq_iff (codes "template-1") i)

device_relay :
    (i : Text) (d : Device) → device_row i world ≡ some d → d.template_id ≡ codes "template-1"
device_relay i d h = elim (Bool-cases (codes "d1" == i)) [
  | inl first ↦ let e : pump ≡ d = ground arith in ap (λ x. x.template_id) (sym e)
  | inr later ↦ let e : fan ≡ d = ground arith in ap (λ x. x.template_id) (sym e)
]

firmware_relay :
    (i : Text) (f : Firmware) → firmware_row i world ≡ some f → f.template_id ≡ codes "template-1"
firmware_relay i f h = let e : update ≡ f = ground arith in ap (λ x. x.template_id) (sym e)

world-HasTemplates : HasTemplates world
world-HasTemplates = (
  λ i d h. relay_there d.template_id (device_relay i d h),
  λ i f h. relay_there f.template_id (firmware_relay i f h),
)

stock : CatalogueRun world kept
stock =
    and_then_step
      (and_then_step begin (
        uploading hosting 9000 owner (codes "template-1") (codes "3.0") none (codes "f.bin")
          (7 ∷ [])))
      (untemplating (codes "template-1"))

CatalogueRun-HasTemplates_example : HasTemplates kept
CatalogueRun-HasTemplates_example = CatalogueRun-HasTemplates world-HasTemplates stock
