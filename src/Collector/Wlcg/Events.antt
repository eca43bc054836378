-- ===== src/Collector/Wlcg/Events.antt =====
-- `TransformCacheEvent`, `TransformTPCEvent` and `ConvertGStreamToWLCG` of
-- collector/wlcg_converter.go. An event is a map of JSON values; float64 is a parameter.
use xrootd_monitoring_shovel.Base.{
  Bool, List, [], ◌∷◌, Option, none, some, Bytes, bytes, is_empty, ℤ, Assoc, lookup, insert, remove,
  if◌then◌else◌, String,
}
use xrootd_monitoring_shovel.Collector.Wlcg.{WlcgMetadata, Metadata, Context, raw_metadata}

-- float64 with its sum and difference, and the conversion from int and int64.
pub record Floats : Type 1 where
  pub F : Type 0
  pub zero_float : F
  pub plus : F → F → F
  pub minus : F → F → F
  pub of_int : ℤ → F

module _ {ℓ} {V : Type ℓ} where
  -- The map if the value is none, and else the map with the value under its new name only.
  unfoldable pub move_field : Bytes → Bytes → Option V → Assoc V → Assoc V
  unfolding insert remove
  move_field from to none m = m
  move_field from to (some v) m = remove from (insert to v m)

  -- renameField
  unfoldable pub rename_field : Bytes → Bytes → Assoc V → Assoc V
  unfolding lookup move_field
  rename_field from to m = move_field from to (lookup from m) m

  -- A run of renameField, in order.
  unfoldable pub rename_fields : List (Bytes × Bytes) → Assoc V → Assoc V
  unfolding rename_field
  rename_fields [] m = m
  rename_fields ((from, to) ∷ pairs) m = rename_fields pairs (rename_field from to m)

abbrev named : String → String → Bytes × Bytes
named from to = (bytes from, bytes to)

unfoldable pub cache_names : List (Bytes × Bytes)
cache_names =
    named "lfn" "file_path"
    ∷ named "blk_size" "block_size"
    ∷ named "n_blks" "numbers_blocks"
    ∷ named "n_blks_done" "numbers_blocks_done"
    ∷ named "access_cnt" "access_count"
    ∷ named "attach_t" "attach_time"
    ∷ named "detach_t" "detach_time"
    ∷ named "b_hit" "bytes_hit_cache"
    ∷ named "b_miss" "bytes_miss_cache"
    ∷ named "b_bypass" "bytes_bypass_cache"
    ∷ named "b_todisk" "bytes_to_disk"
    ∷ named "b_prefetch" "bytes_by_prefetch"
    ∷ named "n_cks_errs" "numbers_checksum_errors"
    ∷ []

unfoldable pub tpc_names : List (Bytes × Bytes)
tpc_names =
    named "TPC" "tpc_protocol"
    ∷ named "Client" "client"
    ∷ named "Src" "source"
    ∷ named "Dst" "destination"
    ∷ named "Size" "size"
    ∷ []

unfoldable pub xeq_names : List (Bytes × Bytes)
xeq_names =
    named "Beg" "begin_transfer"
    ∷ named "End" "end_transfer"
    ∷ named "IPv" "ip_version"
    ∷ named "RC" "return_code"
    ∷ named "Strm" "used_streams"
    ∷ named "Type" "flow_direction"
    ∷ []

-- The values in an event: what the code tells apart, and any other. The values inside an object are
-- only copied.
pub data Value (F : Type 0) (V : Type 0) : Type 0 where
  float : F → Value F V
  integer : ℤ → Value F V
  text : Bytes → Value F V
  object : Assoc V → Value F V
  metadata : Metadata → Value F V
  other : V → Value F V

module _ (floats : Floats) {V : Type 0} where
  -- toFloat64 of an element of a map; one that is missing is nil.
  unfoldable pub to_float64 : Option (Value floats.F V) → floats.F
  to_float64 (some (float x)) = x
  to_float64 (some (integer n)) = floats.of_int n
  to_float64 _ = floats.zero_float

  unfoldable pub transform_cache_event : Assoc (Value floats.F V) → Assoc (Value floats.F V)
  unfolding rename_fields cache_names to_float64 lookup insert
  transform_cache_event event =
      let out = rename_fields cache_names event in
      let todisk = to_float64 (lookup (bytes "bytes_to_disk") out) in
      let bypass = to_float64 (lookup (bytes "bytes_bypass_cache") out) in
      let prefetch = to_float64 (lookup (bytes "bytes_by_prefetch") out) in
      insert (bytes "bytes_explicit_remote_read")
        (float (floats.minus (floats.plus todisk bypass) prefetch))
        (insert (bytes "bytes_read_by_remote") (float (floats.plus todisk bypass)) out)

  -- The map under "Xeq" is renamed and put under "xeq"; another value there is dropped.
  unfoldable pub rename_xeq :
      Option (Value floats.F V) → Assoc (Value floats.F V) → Assoc (Value floats.F V)
  unfolding rename_fields xeq_names insert remove
  rename_xeq none out = out
  rename_xeq (some (object xeq)) out =
      remove (bytes "Xeq") (insert (bytes "xeq") (object (rename_fields xeq_names xeq)) out)
  rename_xeq (some _) out = remove (bytes "Xeq") out

  unfoldable pub transform_tpc_event : Assoc (Value floats.F V) → Assoc (Value floats.F V)
  unfolding rename_fields tpc_names rename_xeq lookup
  transform_tpc_event event =
      let out = rename_fields tpc_names event in rename_xeq (lookup (bytes "Xeq") out) out

  unfoldable pub convert_gstream_to_wlcg :
      Context → Assoc (Value floats.F V) → Bool → WlcgMetadata → Assoc (Value floats.F V)
  unfolding insert raw_metadata
  convert_gstream_to_wlcg context event is_tpc meta =
      let event_type = if is_tpc then bytes "tpc" else bytes "metric" in
      let out =
        insert (bytes "metadata") (metadata (raw_metadata context meta.gstream_producer event_type))
          event in
      if is_empty meta.vo then out else insert (bytes "vo") (text meta.vo) out
