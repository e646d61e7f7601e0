-- ===== src/Vol/Files/Created.antt =====
-- What `H5VL_dtio_group_create_helper` of adapter/vol/vol-old/H5VLDTIO.cc makes.
use dtio.Prelude.{
  ℕ, suc, ◌+◌, ◌*◌, ◌%◌, ◌^◌, ◌<◌, ◌≡◌, ap, ◌∙◌, Bool, true, ◌&&◌, str_eq, Option, none, some, Str,
  length, if◌then◌else◌, nat_eq, ◌==◌, arith,
}
use dtio.Prelude.Dict.{lookup, ==_refl}
use dtio.Exec.{Exec, ok, failed_assertion, ◌>>=◌, ◌>>◌, guard}
use dtio.Vol.Objects.{LinkVal, ItemType, hard, h5i_group}
use dtio.Vol.Store.{StoreApi, LinkTypes, LinkTypesLaws, OmapLaws}
use dtio.Vol.Oids.{oid_create, oid_create_string, oid_create_binary, oid_to_idx}
use dtio.Vol.Oids.Words.{bits_above, mask}
use dtio.Vol.Oids.Total.{oid_create_string_total}
use dtio.Vol.Links.{link_read, link_write}
use dtio.Vol.Links.Laws.{link_read-link_write}
use dtio.Vol.Groups.{Group, PlistApi, World, allocate, deref}
use dtio.Vol.Groups.Heap.{object_text, lookup_inserted, lookup_elsewhere}
use dtio.Vol.Groups.Paths.{link_follow}
use dtio.Vol.Groups.Follow.{link_follow_lem, link_target}
use dtio.Vol.Files.{
  Process, group_create_helper, add_group, group_ids, write_group, link_to_new, oid_of, writes,
}

pub group_binary : (idx : ℕ) → idx < 2 ^ 62 → oid_create_binary idx h5i_group ≡ ok idx
unfolding oid_create_binary
group_binary idx h = ap (λ (n : ℕ). ok n) (bits_above 0 idx ∙ small)
  where
    small : 0 * 2 ^ 62 + idx % 2 ^ 62 ≡ idx
    small = omega arith

pub group_index : (idx : ℕ) → idx < 2 ^ 62 → oid_to_idx idx ≡ idx
unfolding oid_to_idx
group_index idx h = omega (arith, mask idx)

-- The identifier and the text of an object of which the identifier can be made.
pub oid_create_made :
    (name : Str) (idx : ℕ) (t : ItemType) (bin_oid : ℕ)
    → length name + 18 < 2 ^ 31
    → oid_create_binary idx t ≡ ok bin_oid
    → oid_create name idx t ≡ ok (some (bin_oid, object_text name bin_oid))
unfolding oid_create
oid_create_made name idx t bin_oid short made =
    ap (λ (m : Exec ℕ). m >>= text_of) made
    ∙ ap (λ (m : Exec (Option Str)). m >>= both bin_oid)
        (oid_create_string_total name bin_oid short)
  where
    both : ℕ → Option Str → Exec (Option (ℕ × Str))
    both b oid = ok (elim oid [ none ↦ none | some text ↦ some (b, text) ])

    text_of : ℕ → Exec (Option (ℕ × Str))
    text_of b = oid_create_string name b >>= both b

-- With a small index, for a group.
pub oid_create-group :
    (name : Str) (idx : ℕ)
    → length name + 18 < 2 ^ 31
    → idx < 2 ^ 62
    → oid_create name idx h5i_group ≡ ok (some (idx, object_text name idx))
oid_create-group name idx short h =
    oid_create_made name idx h5i_group idx short (group_binary idx h)

pub next_index : (n : ℕ) → n + 1 < 2 ^ 62 → (n + 1) % 2 ^ 64 ≡ n + 1
next_index n h = omega arith

module _ {S : Type 0} (api : StoreApi S) (T : LinkTypes) (plists : PlistApi) where
  -- The group that is allocated, and the file with its index counted.
  abbrev pub created : ℕ → World S → Group
  created gcpl_id w = record {
    bin_oid = w.max_oid + 1;
    oid = some (object_text w.file_name (w.max_oid + 1));
    rc = 1;
    gcpl_id = gcpl_id;
  }

  abbrev pub indexed : World S → World S
  indexed w = record w { max_oid = w.max_oid + 1 }

  abbrev pub own_metadata : ℕ → World S → S
  own_metadata gcpl_id w =
      api.dtio_write (object_text w.file_name (w.max_oid + 1)) (plists.encode gcpl_id) w.store

  abbrev finish : ℕ → World S → World S → Exec (ℕ × World S)
  finish gcpl_id w w' = ok (allocate (created gcpl_id w) w')

  -- The helper on a process that writes, as its last steps.
  pub group_create_helper_steps :
      (me : Process) (gcpl_id : ℕ) (parent : Option (ℕ × Str)) (collective : Bool) (w : World S)
      → length w.file_name + 18 < 2 ^ 31
      → w.max_oid + 1 < 2 ^ 62
      → w.flags.acc_rdwr ≡ true
      → writes me collective ≡ true
      → group_create_helper api T plists me gcpl_id parent collective w ≡ (
          link_to_new api T plists parent
            (w.max_oid + 1)
            (record (indexed w) { store = own_metadata gcpl_id w; max_oid_dirty = true })
          >>= finish gcpl_id w)
  unfolding group_create_helper
  group_create_helper_steps me gcpl_id parent collective w short small rdwr lead =
      (λ i.
        guard (rdwr i) failed_assertion
        >> (oid_create w.file_name ((w.max_oid + 1) % 2 ^ 64) h5i_group >>= rest))
      ∙ (ap (λ (n : ℕ). oid_create w.file_name n h5i_group >>= rest) (next_index w.max_oid small)
          ∙ (ap (λ (m : Exec (Option (ℕ × Str))). m >>= rest)
                (oid_create-group w.file_name (w.max_oid + 1) short small)
              ∙ (ap (add_group api T plists me gcpl_id parent collective w ids)
                    (group_index (w.max_oid + 1) small)
                  ∙ ap
                      (λ (b : Bool).
                        (if b
                          then write_group api T plists parent gcpl_id ids (indexed w)
                          else ok (indexed w))
                        >>= finish gcpl_id w)
                      lead)))
    where
      ids : ℕ × Option Str
      ids = (w.max_oid + 1, some (object_text w.file_name (w.max_oid + 1)))

      rest : Option (ℕ × Str) → Exec (ℕ × World S)
      rest made =
          add_group api T plists me gcpl_id parent collective w (group_ids made)
            (oid_to_idx (group_ids made).0)

  -- A helper without a link to write.
  pub group_create_helper_alone :
      (me : Process) (gcpl_id : ℕ) (collective : Bool) (w : World S)
      → length w.file_name + 18 < 2 ^ 31
      → w.max_oid + 1 < 2 ^ 62
      → w.flags.acc_rdwr ≡ true
      → writes me collective ≡ true
      → group_create_helper api T plists me gcpl_id none collective w
        ≡ ok (
            allocate
              (created gcpl_id w)
              (record (indexed w) { store = own_metadata gcpl_id w; max_oid_dirty = true }))
  group_create_helper_alone me gcpl_id collective w short small rdwr lead =
      group_create_helper_steps me gcpl_id none collective w short small rdwr lead

  module _ (laws : OmapLaws api) (types : LinkTypesLaws T) where
    -- A group that is created under a name in a group that is open is what the name leads to from then
    -- on: the link that the helper writes is followed to the identifier of the new group. The link
    -- must have been stored, and no group may stand at the address that `malloc` gives.
    pub link_follow-group_create_helper :
        (depth : ℕ) (me : Process) (gcpl_id pp : ℕ) (name parent_text : Str) (collective : Bool)
        (w : World S) (parent : Group) (s' : S)
        → length w.file_name + 18 < 2 ^ 31
        → w.max_oid + 1 < 2 ^ 62
        → w.flags.acc_rdwr ≡ true
        → writes me collective ≡ true
        → lookup pp w.heap ≡ some parent
        → 0 < parent.rc
        → parent.oid ≡ some parent_text
        → lookup w.fresh_ptr w.heap ≡ none
        → link_write api T w.flags parent_text name (hard (w.max_oid + 1)) (own_metadata gcpl_id w)
          ≡ (true, s')
        → (w' : World S) × (group_create_helper api T plists me gcpl_id
              (some (pp, name))
              collective
              w
            ≡ ok (w.fresh_ptr, w'))
          × (lookup w.fresh_ptr w'.heap ≡ some (created gcpl_id w))
          × (link_follow api T plists (suc depth) pp name w' ≡ ok (some (w.max_oid + 1), w'))
    link_follow-group_create_helper depth me gcpl_id pp name text collective w parent s' short small
          rdwr lead found positive named absent linked =
        (
          after,
          made,
          there,
          link_follow_lem api T plists depth pp name text after parent
                (lookup_elsewhere pp w.fresh_ptr parent (created gcpl_id w) w.heap found absent)
                positive named
              ∙ ap
                  (λ (v : Exec (Option LinkVal)).
                    v >>= λ val. ok (link_target parent.bin_oid val, after))
                  reads,
        )
      where
        before : World S
        before = record (indexed w) { store = own_metadata gcpl_id w; max_oid_dirty = true }

        after : World S
        after = (allocate (created gcpl_id w) (record before { store = s' })).1

        to_text : Str → Exec (World S)
        to_text parent_oid = ok (record before {
          store =
              (link_write api T w.flags parent_oid name (hard (w.max_oid + 1))
                (own_metadata gcpl_id w)).1;
        })

        to_parent : Group → Exec (World S)
        to_parent x = oid_of x.oid >>= to_text

        made :
            group_create_helper api T plists me gcpl_id (some (pp, name)) collective w
            ≡ ok (w.fresh_ptr, after)
        made =
            group_create_helper_steps me gcpl_id (some (pp, name)) collective w short small rdwr
              lead
            ∙ (ap (λ (m : Option Group). (deref m >>= to_parent) >>= finish gcpl_id w) found
                ∙ (ap (λ (m : Option Str). (oid_of m >>= to_text) >>= finish gcpl_id w) named
                    ∙ ap (λ (r : Bool × S). finish gcpl_id w (record before { store = r.1 }))
                        linked))

        there : lookup w.fresh_ptr after.heap ≡ some (created gcpl_id w)
        there = lookup_inserted w.fresh_ptr (created gcpl_id w) w.heap

        same : (text == text) && (name == name) ≡ true
        same = (λ i. ==_refl text i && ==_refl name i)

        reads : link_read api T text name s' ≡ ok (some (hard (w.max_oid + 1)))
        reads =
            link_read-link_write api T laws types w.flags text name text name (hard (w.max_oid + 1))
              (own_metadata gcpl_id w) s' (omega arith) linked
            ∙ ap
                (λ (b : Bool).
                  if b
                  then ok (some (hard (w.max_oid + 1)))
                  else link_read api T text name (own_metadata gcpl_id w))
                same
