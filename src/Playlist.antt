-- ===== src/Playlist.antt =====
-- The title in the HLS playlist (src/worker/worker.cpp, `isSafeMetaForExtinf`, `sanitizeForExtinf`,
-- `replaceExtinfPayload`, `injectHlsMetadataIntoPlaylist`).
pub mod Sanitize
pub mod Future
use multi_coder.Prelude.{
  ℕ, zero, suc, ◌+◌, Bool, true, false, not, ◌&&◌, ◌||◌, List, [], ◌∷◌, ◌++◌, Option, none, some,
  Bytes, codes, beq, is_empty, length, take, starts_with, find_byte, leb, ltb, ◌==◌, if◌then◌else◌,
}
use multi_coder.Strings.{is_space, drop_last_while}
use multi_coder.Strings.Lines.{get_lines, without_cr, unlines}
use multi_coder.Json.{Object, get_bool, get_sub_object, get_string}

abbrev pub stays_in_line : ℕ → Bool
stays_in_line c = not (ltb c 32 && not (c == 9)) && not (c == 13 || c == 10)

unfoldable pub all_stay : Bytes → Bool
all_stay [] = true
all_stay (c ∷ s) = stays_in_line c && all_stay s

unfoldable pub is_safe_meta_for_extinf : Bytes → ℕ → Bool
is_safe_meta_for_extinf s max_len = not (is_empty s) && (leb (length s) max_len && all_stay s)

abbrev pub sanitized_byte : ℕ → Bytes
sanitized_byte c = if c == 13 || c == 10 || c == 9 then 32 ∷ [] else if leb 32 c then c ∷ [] else []

-- The loop, with `out.size()`.
unfoldable pub sanitize_from : ℕ → ℕ → Bytes → Bytes
sanitize_from max_len size [] = []
sanitize_from max_len size (c ∷ s) =
    let size' = size + length (sanitized_byte c) in
    let rest = sanitize_from max_len size' s in
    sanitized_byte c ++ (if leb max_len size' then [] else rest)

unfoldable pub sanitize_for_extinf : Bytes → ℕ → Bytes
unfolding sanitize_from drop_last_while
sanitize_for_extinf s max_len = drop_last_while is_space (sanitize_from max_len 0 s)

replaced_at : Option ℕ → Bytes → Bytes → Bytes
replaced_at none line payload = line ++ b',' ∷ payload
replaced_at (some comma) line payload = take (comma + 1) line ++ payload

unfoldable pub replace_extinf_payload : Bytes → Bytes → Bytes
unfolding replaced_at find_byte
replace_extinf_payload line payload = replaced_at (find_byte b',' line) line payload

unfoldable pub playlist_lines : List Bytes → List Bytes
unfolding without_cr
playlist_lines [] = []
playlist_lines (l ∷ ls) = without_cr l ∷ playlist_lines ls

abbrev pub is_extinf : Bytes → Bool
is_extinf l = starts_with (codes "#EXTINF:") l

-- `extinfIdx`; the number is the first line's index.
unfoldable pub extinf_indices : ℕ → List Bytes → List ℕ
extinf_indices i [] = []
extinf_indices i (l ∷ ls) =
    let rest = extinf_indices (suc i) ls in if is_extinf l then i ∷ rest else rest

-- `lines[idx] = replaceExtinfPayload(lines[idx], payload)`
unfoldable pub replace_at : Bytes → ℕ → List Bytes → List Bytes
replace_at payload i [] = []
replace_at payload zero (l ∷ ls) = replace_extinf_payload l payload ∷ ls
replace_at payload (suc i) (l ∷ ls) = l ∷ replace_at payload i ls

unfoldable pub replace_each : Bytes → List ℕ → List Bytes → List Bytes
replace_each payload [] lines = lines
replace_each payload (i ∷ is) lines = replace_each payload is (replace_at payload i lines)

abbrev last_index : ℕ → List ℕ → ℕ
last_index i [] = i
last_index i (j ∷ is) = last_index j is

-- `none` where no line is to be patched.
unfoldable pub patched_at : Bool → Bytes → List ℕ → List Bytes → Option (List Bytes)
unfolding replace_each replace_at
patched_at include_future payload [] lines = none
patched_at include_future payload (i ∷ is) lines =
    if include_future
    then some (replace_each payload (i ∷ is) lines)
    else some (replace_at payload (last_index i is) lines)

unfoldable pub patch_lines : Bool → Bytes → List Bytes → Option (List Bytes)
unfolding patched_at extinf_indices
patch_lines include_future payload lines =
    patched_at include_future payload (extinf_indices 0 lines) lines

-- `err`, `none` where the function returns true, and the playlist behind the call.
pub record Injection : Type 0 where
  pub err : Option Bytes
  pub playlist : Option Bytes

-- What the calls on the file system give.
pub record FileCalls : Type 0 where
  pub opened : Bool
  pub renamed : Bool
  pub copied : Bool
  pub removed : Bool

refuse : Bytes → Option Bytes → Injection
refuse err playlist = record { err = some err; playlist = playlist }

-- `fs::remove` takes the same `ec` as `fs::copy_file`, so that its result is the one that counts.
replace_playlist : FileCalls → Bytes → Bytes → Injection
unfolding refuse
replace_playlist files old new =
    if not files.opened
    then refuse (codes "cannot open temp playlist") (some old)
    else if files.renamed
    then record { err = none; playlist = some new }
    else (let playlist = some (if files.copied then new else old) in
        if files.removed
        then record { err = none; playlist = playlist }
        else refuse (codes "failed replacing playlist") playlist)

write_patched : FileCalls → Bytes → Option (List Bytes) → Injection
unfolding unlines replace_playlist
write_patched files old none = refuse (codes "no EXTINF lines") (some old)
write_patched files old (some lines) = replace_playlist files old (unlines lines)

inject_payload : FileCalls → Bool → Bytes → Option Bytes → Injection
unfolding write_patched patch_lines playlist_lines get_lines
inject_payload files include_future payload none = refuse (codes "playlist not found") none
inject_payload files include_future payload (some content) =
    if is_empty content
    then refuse (codes "playlist empty") (some content)
    else write_patched files content
        (patch_lines include_future payload (playlist_lines (get_lines content)))

unfoldable pub inject_hls_metadata_into_playlist :
    FileCalls → Object → Bytes → Option Bytes → Injection
unfolding is_safe_meta_for_extinf all_stay sanitize_for_extinf inject_payload refuse beq
inject_hls_metadata_into_playlist files hls_cfg raw_payload playlist =
    let parser = get_sub_object hls_cfg (codes "metaParser") in
    let include_future =
      beq (get_string parser (codes "scope") (codes "current")) (codes "currentFuture") in
    let payload =
      if is_safe_meta_for_extinf raw_payload 8192
      then raw_payload
      else sanitize_for_extinf raw_payload 8192 in
    if not (get_bool hls_cfg (codes "metaEnabled") true)
    then refuse (codes "hls meta disabled") playlist
    else if not (is_safe_meta_for_extinf payload 8192)
    then refuse (codes "payload not safe for EXTINF") playlist
    else inject_payload files include_future payload playlist
