-- ===== src/Davs/Model/Laws.antt =====
-- What the configuration file holds after a change of the davs.
use mathlib.Core.Option
use vestirust.Prelude.{
  ℕ, none, some, List, [], ◌∷◌, map, String, ◌≡◌, refl, ap, ◌∙◌, inl, inr, ok, ◌==◌, find,
  if◌then◌else◌, Option-cases, arith,
}
use vestirust.Prelude.Tables.{
  find_key, replace_or_push, remove_found, IsUnique, find-replace_or_push, find-remove_found,
}
use vestirust.Model.{StatusCode, Dav, Config}
use vestirust.Configuration.{from_file}
use vestirust.Configuration.Interface.{Backend, IsStorage, without_key, without_keys}
use vestirust.Configuration.Laws.{from_file_saved}
use vestirust.Davs.Model.{by_id, add_dav, delete_dav}

-- The keys of the davs play no part in a search.
pub find-map-without_key :
    (id : ℕ) (l : List Dav)
    → find_key by_id id (map without_key l) ≡ Option.map without_key (find_key by_id id l)
unfolding find
find-map-without_key id [] = refl
find-map-without_key id (d ∷ l) = ground (arith, find-map-without_key id l)

module _ {World : Type 0} {backend : Backend World} (storage : IsStorage backend) where
  -- After `add_dav` answered with a success, the file holds a configuration in which the payload
  -- stands under its id and every other id has the dav that it had, each without its key, which no
  -- file holds, and the rest is unchanged.
  pub add_dav-saved :
      (config_file : String) (config : Config) (payload : Dav) (w w' : World)
      (r : StatusCode × String)
      → add_dav backend config_file config payload w ≡ (w', ok r)
      → (after : Config) × (from_file backend w' config_file ≡ some after)
        × ((id : ℕ)
            → find_key by_id id after.davs ≡ (
                if payload.id == id
                then some (without_key payload)
                else Option.map without_key (find_key by_id id config.davs)))
        × (record after { davs = [] } ≡ record (without_keys config) { davs = [] })
  unfolding add_dav
  add_dav-saved config_file config payload w w' r h = (
    _,
    from_file_saved storage _ config_file _ r w w' h,
    λ id.
        find-map-without_key id (replace_or_push by_id payload config.davs)
        ∙ ap (Option.map without_key) (find-replace_or_push by_id id payload config.davs)
        ∙ ground arith,
    refl,
  )

  -- After `delete_dav` answered with a success, if the ids were unique, the file holds a
  -- configuration in which the id has no dav, every other id has the dav that it had, without its
  -- key, and the rest is unchanged.
  pub delete_dav-saved :
      (config_file : String) (config : Config) (dav_id : ℕ) (w w' : World) (r : StatusCode × String)
      → IsUnique by_id config.davs
      → delete_dav backend config_file config dav_id w ≡ (w', ok r)
      → (after : Config) × (from_file backend w' config_file ≡ some after)
        × ((id : ℕ)
            → find_key by_id id after.davs ≡ (
                if dav_id == id
                then none
                else Option.map without_key (find_key by_id id config.davs)))
        × (record after { davs = [] } ≡ record (without_keys config) { davs = [] })
  unfolding delete_dav
  delete_dav-saved config_file config dav_id w w' r u h =
      elim (Option-cases (remove_found by_id dav_id config.davs)) [
        | inl e ↦ cc (ap (λ t. t.1) (rw (e, delete_dav) at h))
        | inr (davs, e) ↦ (
          _,
          from_file_saved storage (record config { davs = davs }) config_file _ r w w'
              (rw (e, delete_dav) at h),
          λ id.
              find-map-without_key id davs
              ∙ ap (Option.map without_key) (find-remove_found by_id id dav_id config.davs u e)
              ∙ ground arith,
          refl,
        )
      ]
