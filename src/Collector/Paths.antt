-- ===== src/Collector/Paths.antt =====
-- `extractDirnames` of collector/correlator.go, and path.Clean and path.Join, which it calls.
use xrootd_monitoring_shovel.Base.{
  ℕ, Bool, ◌||◌, List, [], ◌∷◌, String, Bytes, bytes, is_empty, eqb, has_prefix, split, join, leb,
  length, take, ◌==◌, if◌then◌else◌,
}

-- One component onto the components so far, which stand in reverse order.
clean_step : Bool → List Bytes → Bytes → List Bytes
clean_step rooted done part =
    if is_empty part || eqb part (bytes ".")
    then done
    else if eqb part (bytes "..")
    then (elim done [
      | [] ↦ if rooted then [] else part ∷ []
      | last ∷ before ↦ if eqb last (bytes "..") then part ∷ last ∷ before else before
    ])
    else part ∷ done

clean_parts : Bool → List Bytes → List Bytes → List Bytes
unfolding clean_step
clean_parts rooted done [] = done
clean_parts rooted done (p ∷ ps) = clean_parts rooted (clean_step rooted done p) ps

reversed : List Bytes → List Bytes → List Bytes
reversed acc [] = acc
reversed acc (p ∷ ps) = reversed (p ∷ acc) ps

-- path.Clean
unfoldable pub clean : Bytes → Bytes
unfolding clean_parts reversed
clean p =
    let rooted = has_prefix p (bytes "/") in
    let body = join b'/' (reversed [] (clean_parts rooted [] (split p b'/'))) in
    if rooted then b'/' ∷ body else if is_empty body then bytes "." else body

without_empty : List Bytes → List Bytes
without_empty [] = []
without_empty (p ∷ ps) = let rest = without_empty ps in if is_empty p then rest else p ∷ rest

-- path.Join
unfoldable pub path_join : List Bytes → Bytes
unfolding clean without_empty
path_join ps =
    let filled = join b'/' (without_empty ps) in if is_empty filled then [] else clean filled

abbrev pub unknown_directory : Bytes
unknown_directory = bytes "unknown directory"

pub record Dirnames : Type 0 where
  pub dirname1 : Bytes
  pub dirname2 : Bytes
  pub logical_dirname : Bytes

first_dirname : List Bytes → Bytes
first_dirname [] = unknown_directory
first_dirname (p ∷ ps) = if is_empty p then unknown_directory else b'/' ∷ p

second_dirname : List Bytes → Bytes
unfolding first_dirname path_join
second_dirname (p ∷ q ∷ ps) =
    if is_empty p then first_dirname (p ∷ q ∷ ps) else b'/' ∷ path_join (p ∷ q ∷ [])
second_dirname ps = first_dirname ps

-- The first n components if there are as many, and else dirname2.
deep_dirname : ℕ → List Bytes → Bytes
unfolding second_dirname path_join
deep_dirname n parts =
    if leb n (length parts) then b'/' ∷ path_join (take n parts) else second_dirname parts

abbrev under : Bytes → String → Bool
under path prefix = has_prefix path (bytes prefix)

logical_of : Bytes → List Bytes → Bytes
unfolding second_dirname deep_dirname
logical_of path parts =
    if under path "/user"
    then second_dirname parts
    else if under path "/osgconnect/public"
        || under path "/osgconnect/protected"
        || under path "/ospool/PROTECTED"
    then deep_dirname 3 parts
    else if under path "/ospool"
    then deep_dirname 4 parts
    else if under path "/path-facility"
    then deep_dirname 3 parts
    else if under path "/hcc"
    then deep_dirname 5 parts
    else if under path "/pnfs/fnal.gov/usr"
    then deep_dirname 4 parts
    else if under path "/gwdata"
    then second_dirname parts
    else if under path "/chtc/"
    then bytes "/chtc"
    else if under path "/icecube/"
    then bytes "/icecube"
    else if under path "/igwn"
    then deep_dirname 3 parts
    else if under path "/store" || under path "/user/dteam"
    then second_dirname parts
    else unknown_directory

-- strings.TrimPrefix(s, "/")
abbrev without_slash : Bytes → Bytes
without_slash [] = []
without_slash (c ∷ cs) = if c == b'/' then cs else c ∷ cs

unfoldable pub extract_dirnames : Bytes → Dirnames
unfolding logical_of clean
extract_dirnames filename =
    if is_empty filename || eqb filename (bytes "unknown") || eqb filename (bytes "/")
    then record {
      dirname1 = unknown_directory;
      dirname2 = unknown_directory;
      logical_dirname = unknown_directory;
    }
    else let path = clean filename in
      let parts = split (without_slash path) b'/' in
      record {
        dirname1 = first_dirname parts;
        dirname2 = second_dirname parts;
        logical_dirname = logical_of path parts;
      }
