-- ===== src/Vol/Files/Grown.antt =====
-- The file after the helper that creates a group of adapter/vol/vol-old/H5VLDTIO.cc, where the group is
-- linked to a parent.
use dtio.Prelude.{
  ℕ, ◌+◌, ◌^◌, ◌<◌, ◌≡◌, refl, sym, ap, ◌∙◌, Bool, true, Option, none, some, Str, nat_eq,
}
use dtio.Prelude.Dict.{lookup}
use dtio.Exec.{Exec, ok, ok-injective, fault, ◌>>=◌}
use dtio.Vol.Objects.{hard}
use dtio.Vol.Store.{StoreApi, LinkTypes}
use dtio.Vol.Links.{link_write}
use dtio.Vol.Groups.{Group, PlistApi, World, deref, allocate}
use dtio.Vol.Files.{Process, writes, group_create_helper, link_to_new, oid_of}
use dtio.Vol.Files.Created.{group_create_helper_steps, created, indexed, own_metadata}
use dtio.Vol.Files.Saved.{IsOpen}

module _ {S : Type 0} (api : StoreApi S) (T : LinkTypes) (plists : PlistApi) where
  linked_text :
      (o : Option Str) (f : Str → S) (w w' : World S)
      → (oid_of o >>= λ t. ok (record w { store = f t })) ≡ ok w'
      → (s : S) × (w' ≡ record w { store = s })
  linked_text none f w w' h = absurd (cc)
  linked_text (some t) f w w' h = (f t, sym (ok-injective (record w { store = f t }) w' h))

  linked_group :
      (o : Option Group) (f : Str → S) (w w' : World S)
      → (deref o >>= λ g. oid_of g.oid >>= λ t. ok (record w { store = f t })) ≡ ok w'
      → (s : S) × (w' ≡ record w { store = s })
  linked_group none f w w' h = absurd (cc)
  linked_group (some g) f w w' h = linked_text g.oid f w w' h

  -- Writing the link changes only the store.
  linked_only :
      (parent : Option (ℕ × Str)) (b : ℕ) (w w' : World S)
      → link_to_new api T plists parent b w ≡ ok w'
      → (s : S) × (w' ≡ record w { store = s })
  linked_only none b w w' h = (w.store, sym (ok-injective w w' h))
  linked_only (some (pp, name)) b w w' h =
      linked_group (lookup pp w.heap) (λ t. (link_write api T w.flags t name (hard b) w.store).1) w
        w' h

  linked_then :
      (parent : Option (ℕ × Str)) (b gcpl_id : ℕ) (w0 w : World S) (link : Exec (World S))
      (r : ℕ × World S)
      → link ≡ link_to_new api T plists parent b w
      → (link >>= λ x. ok (allocate (created api T plists gcpl_id w0) x)) ≡ ok r
      → (s : S) × (r ≡ allocate (created api T plists gcpl_id w0) (record w { store = s }))
  linked_then parent b gcpl_id w0 w (fault e) r same h = absurd (cc)
  linked_then parent b gcpl_id w0 w (ok x) r same h =
      let (s, e) = linked_only parent b w x (sym same) in
      (
        s,
        sym (ok-injective (allocate (created api T plists gcpl_id w0) x) r h)
            ∙ ap (allocate (created api T plists gcpl_id w0)) e,
      )

  -- The file and the address after the helper, up to the store.
  pub grown_file :
      (me : Process) (gcpl_id : ℕ) (parent : Option (ℕ × Str)) (collective : Bool) (w : World S)
      (r : ℕ × World S)
      → IsOpen api w
      → w.max_oid + 1 < 2 ^ 62
      → writes me collective ≡ true
      → group_create_helper api T plists me gcpl_id parent collective w ≡ ok r
      → (s : S) × (r
          ≡ allocate
              (created api T plists gcpl_id w)
              (record (indexed api T plists w) { store = s; max_oid_dirty = true }))
  grown_file me gcpl_id parent collective w r o small lead h =
      linked_then parent (w.max_oid + 1) gcpl_id w
        (record (indexed api T plists w) {
          store = own_metadata api T plists gcpl_id w;
          max_oid_dirty = true;
        })
        (link_to_new api T plists parent (w.max_oid + 1) (record (indexed api T plists w) {
          store = own_metadata api T plists gcpl_id w;
          max_oid_dirty = true;
        }))
        r refl
        (sym (
            group_create_helper_steps api T plists me gcpl_id parent collective w o.short small
              o.rdwr lead)
          ∙ h)
