-- ===== src/Examples/Vol/Words.antt =====
-- Identifiers, links and broadcasts at concrete inputs.
use dtio.Prelude.{
  ℕ, ◌≡◌, refl, ◌↔◌, ◌%◌, ◌^◌, List, [], ◌∷◌, ◌&&◌, some, Str, codes, replicate, if◌then◌else◌,
  ◌==◌, str_eq, arith,
}
use dtio.Exec.{ok, ◌>>=◌}
use dtio.Vol.Objects.{h5i_group, soft}
use dtio.Vol.Words.{uint64_encode}
use dtio.Vol.Oids.{oid_create_binary, oid_create_chunk, hex_word, hex_words}
use dtio.Vol.Oids.Words.{oid_create_binary-injective}
use dtio.Vol.Oids.Texts.{oid_create_chunk-injective}
use dtio.Vol.Oids.Total.{oid_create_chunk_total}
use dtio.Vol.Links.{link_read, link_write}
use dtio.Vol.Links.Laws.{link_read-link_write, decoded}
use dtio.Vol.Broadcast.{send_group, receive_group, send_file, receive_file}
use dtio.Vol.Broadcast.Exchange.{receive_group-send_group, receive_file-send_file}
use dtio.Examples.Vol.Memory.{
  Memory, blank, memory, memory-OmapLaws, link_types, link_types-LinkTypesLaws, writable,
}

abbrev index : ℕ
index = 7

abbrev same_index : ℕ
same_index = 4611686018427387911

-- The index 7, and one that agrees with it in the lower 62 bits.
oid_create_binary-injective_example :
    (index ≡ index) ↔ ((h5i_group ≡ h5i_group) × (index % 2 ^ 62 ≡ same_index % 2 ^ 62))
unfolding oid_create_binary
oid_create_binary-injective_example =
    oid_create_binary-injective index same_index h5i_group h5i_group index index refl refl

abbrev chunk_loc : List ℕ
chunk_loc = 64 ∷ 128 ∷ []

oid_create_chunk-injective_example :
    (codes "f.h5" ≡ codes "f.h5") × (index ≡ index) × (chunk_loc ≡ chunk_loc)
unfolding hex_word hex_words
oid_create_chunk-injective_example =
    oid_create_chunk-injective (codes "f.h5") (codes "f.h5") index index chunk_loc chunk_loc
      (codes "02f.h5000000000000000700000000000000400000000000000080") (omega arith) (omega arith)
      (omega arith, (omega arith, tt)) (omega arith, (omega arith, tt)) text text
  where
    text :
        oid_create_chunk (codes "f.h5") index chunk_loc
        ≡ ok (some (codes "02f.h5000000000000000700000000000000400000000000000080"))
    text = oid_create_chunk_total (codes "f.h5") index chunk_loc (omega arith)

abbrev root_text : Str
root_text = codes "obf.h50000000000000001"

abbrev linked : Memory
linked = (link_write memory link_types writable root_text (codes "g") (soft (codes "/a")) blank).1

-- A soft link to `/a`, which cannot be read without a copy from behind an object.
link_read-link_write_example : link_read memory link_types root_text (codes "g") linked ≡ (
    if (root_text == root_text) && (codes "g" == codes "g")
    then decoded (soft (codes "/a"))
    else link_read memory link_types root_text (codes "g") blank)
unfolding link_write
link_read-link_write_example =
    link_read-link_write memory link_types memory-OmapLaws link_types-LinkTypesLaws writable
      root_text (codes "g") root_text (codes "g") (soft (codes "/a")) blank linked tt refl

abbrev group_array : Str
group_array = replicate 256 170

abbrev file_array : Str
file_array = replicate 1024 170

-- A property list that does not fit into the first broadcast of a group, nor into that of a file.
abbrev long_list : Str
long_list = replicate 241 9

receive_group-send_group_example :
    receive_group (send_group group_array index long_list) ≡ ok (index, long_list)
receive_group-send_group_example =
    receive_group-send_group group_array index long_list refl (omega arith) (omega arith)

receive_file-send_file_example :
    (send_file file_array (uint64_encode index) long_list >>= receive_file) ≡ ok (index, long_list)
receive_file-send_file_example =
    receive_file-send_file file_array index long_list refl (omega arith)
