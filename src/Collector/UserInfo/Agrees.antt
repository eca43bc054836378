-- ===== src/Collector/UserInfo/Agrees.antt =====
-- The collector's reading of user information against the parser's.
use xrootd_monitoring_shovel.Base.{
  ◌≡◌, inr, ap, ◌∙◌, ◌∷◌, ◌++◌, append_assoc, some, Bytes, Lacks, Lacks-append, cut, cut-append,
  AreDigits-Lacks, value, pos, atoi_value, atoi_value-AreDigits, arith,
}
use xrootd_monitoring_shovel.Parser.Records.{UserInfo}
use xrootd_monitoring_shovel.Parser.Info
use xrootd_monitoring_shovel.Parser.Info.{InfoResult}
use xrootd_monitoring_shovel.Parser.Info.RoundTrip.{user_text, IsNumber, parse_user_info-user_text}
use xrootd_monitoring_shovel.Collector.UserInfo.{parse_user_info, split_pid_sid}

parse_user_info_parts :
    (b t protocol s username pid_sid host : Bytes)
    → cut b'@' b ≡ some (t, host)
    → cut b'/' t ≡ some (protocol, s)
    → cut b'.' s ≡ some (username, pid_sid)
    → parse_user_info b
      ≡ some (record {
        protocol = protocol;
        username = username;
        pid = (split_pid_sid pid_sid).0;
        sid = (split_pid_sid pid_sid).1;
        host = host;
      })
unfolding parse_user_info
parse_user_info_parts b t protocol s username pid_sid host e f g = ground arith

split_pid_sid-append :
    (p s : Bytes) → Lacks b':' p → split_pid_sid (p ++ (b':' ∷ s)) ≡ (atoi_value p, atoi_value s)
unfolding split_pid_sid
split_pid_sid-append p s h = ground (arith, cut-append b':' p s h)

module _ (protocol sid host : Bytes) (no_slash : Lacks b'/' protocol) (no_at : Lacks b'@' protocol)
    (sid_is : IsNumber sid) where
  -- The reading splits at the first dot: `head` is the user name up to it, `tail` all up to the sid.
  collector_reads :
      (head tail : Bytes)
      → Lacks b'@' head
      → Lacks b'@' tail
      → Lacks b'.' head
      → parse_user_info
          (protocol ++ (b'/' ∷ (head ++ (b'.' ∷ (tail ++ (b':' ∷ (sid ++ (b'@' ∷ host))))))))
        ≡ some (record {
          protocol = protocol;
          username = head;
          pid = (split_pid_sid (tail ++ (b':' ∷ sid))).0;
          sid = (split_pid_sid (tail ++ (b':' ∷ sid))).1;
          host = host;
        })
  collector_reads head tail h t d =
      let numbers = tail ++ (b':' ∷ sid) in
      let user_part = protocol ++ (b'/' ∷ (head ++ (b'.' ∷ numbers))) in
      let regroup : (protocol
            ++ (b'/' ∷ (head ++ (b'.' ∷ (tail ++ (b':' ∷ (sid ++ (b'@' ∷ host))))))))
          ≡ user_part ++ (b'@' ∷ host) =
        simp append_assoc in
      let sid_clean = AreDigits-Lacks b'@' sid (inr (omega arith)) sid_is.0 in
      let clean : Lacks b'@' user_part = Lacks-append b'@' protocol _ no_at (
        omega arith,
        Lacks-append b'@' head _ h
            (omega arith, Lacks-append b'@' tail _ t (omega arith, sid_clean)),
      ) in
      parse_user_info_parts _ user_part protocol (head ++ (b'.' ∷ numbers)) head numbers host
        (ap (cut b'@') regroup ∙ cut-append b'@' user_part host clean)
        (cut-append b'/' protocol _ no_slash) (cut-append b'.' head numbers d)

  module _ (pid : Bytes) (pid_is : IsNumber pid) where
    abbrev info_of : Bytes → UserInfo
    info_of username = record {
      protocol = protocol;
      username = username;
      pid = pos (value pid);
      sid = pos (value sid);
      host = host;
    }

    -- Both readings of user information agree where, besides what the parser asks for, neither the
    -- protocol nor the user name has an at sign, and the user name has no dot.
    pub parse_user_info-agrees :
        (username : Bytes)
        → Lacks b'@' username
        → Lacks b'.' username
        → Lacks b':' username
        → Lacks b'@' host
        → (i : UserInfo) × (Info.parse_user_info (user_text protocol username pid sid host)
            ≡ InfoResult.ok i)
          × (parse_user_info (user_text protocol username pid sid host) ≡ some i)
    unfolding user_text
    parse_user_info-agrees username a d c h =
        let pid_clean = AreDigits-Lacks b'@' pid (inr (omega arith)) pid_is.0 in
        (
          info_of username,
          parse_user_info-user_text protocol username pid sid host no_slash c h pid_is sid_is,
          collector_reads username pid a pid_clean d
              ∙ rw (
                split_pid_sid-append pid sid
                    (AreDigits-Lacks b':' pid (inr (omega arith)) pid_is.0),
                atoi_value-AreDigits pid pid_is.0 pid_is.1 pid_is.2,
                atoi_value-AreDigits sid sid_is.0 sid_is.1 sid_is.2,
              ),
        )
