-- ===== src/Parser/Info/RoundTrip.antt =====
-- The text of a user's information, and what `parseUserInfo` makes of it.
use xrootd_monitoring_shovel.Base.{
  ℕ, ◌<◌, ◌≡◌, ◌≢◌, refl, inl, inr, ◌∙◌, ap, [], ◌∷◌, ◌++◌, append_assoc, some, Bytes, Lacks,
  Lacks-append, cut, cut_last, cut-append, cut_last-append, AreDigits, AreDigits-Lacks, value, pos,
  int64_limit, scan_int-AreDigits, arith,
}
use xrootd_monitoring_shovel.Parser.Info.{ok, parse_filled, parse_user_info}

-- protocol/username.pid:sid@host
unfoldable pub user_text : Bytes → Bytes → Bytes → Bytes → Bytes → Bytes
user_text protocol username pid sid host =
    protocol ++ (b'/' ∷ (username ++ (b'.' ∷ (pid ++ (b':' ∷ (sid ++ (b'@' ∷ host)))))))

-- A number that is written in decimal and fits an int.
abbrev pub IsNumber : Bytes → Type 0
IsNumber ds = AreDigits ds × (ds ≢ []) × (value ds < int64_limit)

parse_filled_parts :
    (b protocol s t u username pid sid host : Bytes)
    → cut b'/' b ≡ some (protocol, s)
    → cut_last b'@' s ≡ some (t, host)
    → cut b':' t ≡ some (u, sid)
    → cut_last b'.' u ≡ some (username, pid)
    → IsNumber pid
    → IsNumber sid
    → parse_filled b
      ≡ ok (record {
        protocol = protocol;
        username = username;
        pid = pos (value pid);
        sid = pos (value sid);
        host = host;
      })
unfolding parse_filled
parse_filled_parts b protocol s t u username pid sid host e f g k (d, n, v) (d', n', v') =
    ground (arith, scan_int-AreDigits pid d n v, scan_int-AreDigits sid d' n' v')

parse_user_info-cons :
    (a : Bytes) (c : ℕ) (b : Bytes) → parse_user_info (a ++ (c ∷ b)) ≡ parse_filled (a ++ (c ∷ b))
unfolding parse_user_info
parse_user_info-cons [] c b = refl
parse_user_info-cons (x ∷ a) c b = refl

-- User information is read back from its text when the protocol has no slash, the user name no
-- colon, the host no at sign, and pid and sid are decimal numbers that an int holds. The user
-- name may have dots, slashes and at signs.
pub parse_user_info-user_text :
    (protocol username pid sid host : Bytes)
    → Lacks b'/' protocol
    → Lacks b':' username
    → Lacks b'@' host
    → IsNumber pid
    → IsNumber sid
    → parse_user_info (user_text protocol username pid sid host)
      ≡ ok (record {
        protocol = protocol;
        username = username;
        pid = pos (value pid);
        sid = pos (value sid);
        host = host;
      })
unfolding user_text
parse_user_info-user_text protocol username pid sid host p u h n m =
    let named = username ++ (b'.' ∷ pid) in
    let numbered = named ++ (b':' ∷ sid) in
    let regroup : (username ++ (b'.' ∷ (pid ++ (b':' ∷ (sid ++ (b'@' ∷ host))))))
        ≡ numbered ++ (b'@' ∷ host) =
      simp append_assoc in
    let colons : Lacks b':' named =
      Lacks-append b':' username (b'.' ∷ pid) u
        (omega arith, AreDigits-Lacks b':' pid (inr (omega arith)) n.0) in
    parse_user_info-cons protocol b'/' _
    ∙ parse_filled_parts _ protocol _ numbered named username pid sid host
        (cut-append b'/' protocol _ p)
        (ap (cut_last b'@') regroup ∙ cut_last-append b'@' numbered host h)
        (cut-append b':' named sid colons)
        (cut_last-append b'.' username pid (AreDigits-Lacks b'.' pid (inl (omega arith)) n.0)) n m
