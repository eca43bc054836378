-- ===== src/Parser/Info/Fields.antt =====
-- The texts `&key=value...` of the authorization, token and server fields, and what is read back.
use xrootd_monitoring_shovel.Base.{
  ℕ, ◌≡◌, refl, ◌∙◌, ap, List, [], ◌∷◌, ◌++◌, append_assoc, append-nil, none, some, Bytes, bytes,
  Lacks, Lacks-append, cut, cut-append, eqb, is_empty, arith, if◌then◌else◌,
}
use xrootd_monitoring_shovel.Parser.Records.{AuthInfo, ServerInfo}
use xrootd_monitoring_shovel.Parser.Info.{
  split_onto, key_value, assign_all, assign_auth, assign_server, empty_auth, empty_server,
  parse_auth_info, parse_server_info,
}

-- `&key=value` for each pair, in their order.
unfoldable pub field_text : List (Bytes × Bytes) → Bytes
field_text [] = []
field_text ((k, v) ∷ fs) = b'&' ∷ (k ++ (b'=' ∷ v)) ++ field_text fs

-- Keys with neither `=` nor `&`, and values with no `&`.
abbrev pub AreFields : List (Bytes × Bytes) → Type 0
AreFields [] = Unit
AreFields ((k, v) ∷ fs) = Lacks b'=' k × Lacks b'&' k × Lacks b'&' v × AreFields fs

-- The assignments in their order; an empty value makes none.
abbrev pub assign_fields : {A : Type 0} → (A → Bytes → Bytes → A) → A → List (Bytes × Bytes) → A
assign_fields assign a [] = a
assign_fields assign a ((k, v) ∷ fs) =
    assign_fields assign (if is_empty v then a else assign a k v) fs

split_onto-Lacks :
    (sep : ℕ) (x part rest : Bytes)
    → Lacks sep x
    → split_onto sep part (x ++ rest) ≡ split_onto sep (part ++ x) rest
unfolding split_onto
split_onto-Lacks sep [] part rest h = rw append-nil
split_onto-Lacks sep (c ∷ cs) part rest h =
    ground (arith, split_onto-Lacks sep cs (part ++ c ∷ []) rest h.1, append_assoc part (c ∷ []) cs)

abbrev assign_part : {A : Type 0} → (A → Bytes → Bytes → A) → A → Bytes → A
assign_part assign a part = elim (key_value part) [ none ↦ a | some (k, v) ↦ assign a k v ]

module _ {A : Type 0} (assign : A → Bytes → Bytes → A) where
  assign_part-field :
      (a : A) (k v : Bytes)
      → Lacks b'=' k
      → assign_part assign a (k ++ (b'=' ∷ v)) ≡ (if is_empty v then a else assign a k v)
  unfolding key_value
  assign_part-field a k [] h = ground (arith, cut-append b'=' k [] h)
  assign_part-field a k (x ∷ v) h = ground (arith, cut-append b'=' k (x ∷ v) h)

  -- The loop over the parts makes the assignments of the fields, one by one.
  assign_all-field_text :
      (fs : List (Bytes × Bytes)) (part : Bytes) (a : A)
      → AreFields fs
      → assign_all assign a (split_onto b'&' part (field_text fs))
        ≡ assign_fields assign (assign_part assign a part) fs
  unfolding assign_all split_onto field_text
  assign_all-field_text [] [] a h = unfold key_value cut in refl
  assign_all-field_text [] (c ∷ cs) a h = refl
  assign_all-field_text ((k, v) ∷ fs) part a h =
      let field = k ++ (b'=' ∷ v) in
      let clean = Lacks-append b'&' k (b'=' ∷ v) h.1 (omega arith, h.2) in
      ap (λ (p : List Bytes). assign_all assign (assign_part assign a part) p)
        (split_onto-Lacks b'&' field [] (field_text fs) clean)
      ∙ assign_all-field_text fs field (assign_part assign a part) h.3
      ∙ ap (λ (x : A). assign_fields assign x fs)
          (assign_part-field (assign_part assign a part) k v h.0)

-- &p=ap&n=[dn]&h=[hn]&o=[on]&r=[rn]&g=[gn]&m=[info]&x=[xeqname]&y=[minfo]&I={4|6}
abbrev pub auth_fields : AuthInfo → List (Bytes × Bytes)
auth_fields i =
    (bytes "p", i.auth_protocol)
    ∷ (bytes "n", i.dn)
    ∷ (bytes "h", i.hostname)
    ∷ (bytes "o", i.org)
    ∷ (bytes "r", i.role)
    ∷ (bytes "g", i.groups)
    ∷ (bytes "m", i.info)
    ∷ (bytes "x", i.exec_name)
    ∷ (bytes "y", i.mon_info)
    ∷ (bytes "I", i.inet_version)
    ∷ []

-- A field that was empty takes the value whether or not the value is empty.
fill : {A : Type 0} (to : Bytes → A) (v : Bytes) → (if is_empty v then to [] else to v) ≡ to v
fill to [] = refl
fill to (x ∷ v) = refl

-- Authorization information is read back from its text when no value has an ampersand. Values may
-- be empty, and may have equals signs.
pub parse_auth_info-field_text :
    (i : AuthInfo) → AreFields (auth_fields i) → parse_auth_info (field_text (auth_fields i)) ≡ i
unfolding parse_auth_info eqb key_value cut
parse_auth_info-field_text i h =
    assign_all-field_text assign_auth (auth_fields i) [] empty_auth h
    ∙ rw (
      fill (λ v. record empty_auth { auth_protocol = v }) i.auth_protocol,
      fill (λ v. record empty_auth { auth_protocol = i.auth_protocol; dn = v }) i.dn,
      fill (λ v. record empty_auth { auth_protocol = i.auth_protocol; dn = i.dn; hostname = v })
          i.hostname,
      fill
          (λ v. record empty_auth {
            auth_protocol = i.auth_protocol;
            dn = i.dn;
            hostname = i.hostname;
            org = v;
          })
          i.org,
      fill
          (λ v. record empty_auth {
            auth_protocol = i.auth_protocol;
            dn = i.dn;
            hostname = i.hostname;
            org = i.org;
            role = v;
          })
          i.role,
      fill
          (λ v. record empty_auth {
            auth_protocol = i.auth_protocol;
            dn = i.dn;
            hostname = i.hostname;
            org = i.org;
            role = i.role;
            groups = v;
          })
          i.groups,
      fill
          (λ v. record empty_auth {
            auth_protocol = i.auth_protocol;
            dn = i.dn;
            hostname = i.hostname;
            org = i.org;
            role = i.role;
            groups = i.groups;
            info = v;
          })
          i.info,
      fill
          (λ v. record empty_auth {
            auth_protocol = i.auth_protocol;
            dn = i.dn;
            hostname = i.hostname;
            org = i.org;
            role = i.role;
            groups = i.groups;
            info = i.info;
            exec_name = v;
          })
          i.exec_name,
      fill
          (λ v. record empty_auth {
            auth_protocol = i.auth_protocol;
            dn = i.dn;
            hostname = i.hostname;
            org = i.org;
            role = i.role;
            groups = i.groups;
            info = i.info;
            exec_name = i.exec_name;
            mon_info = v;
          })
          i.mon_info,
      fill
          (λ v. record empty_auth {
            auth_protocol = i.auth_protocol;
            dn = i.dn;
            hostname = i.hostname;
            org = i.org;
            role = i.role;
            groups = i.groups;
            info = i.info;
            exec_name = i.exec_name;
            mon_info = i.mon_info;
            inet_version = v;
          })
          i.inet_version,
    )

-- &site=sname&port=pnum&inst=iname&pgm=prog&ver=vname
abbrev pub server_fields : ServerInfo → List (Bytes × Bytes)
server_fields i =
    (bytes "site", i.site)
    ∷ (bytes "port", i.port)
    ∷ (bytes "inst", i.instance_name)
    ∷ (bytes "pgm", i.program)
    ∷ (bytes "ver", i.version)
    ∷ []

-- The identification of a server whose values have no `&` is read back from the text of its fields.
pub parse_server_info-field_text :
    (i : ServerInfo)
    → AreFields (server_fields i)
    → parse_server_info (field_text (server_fields i)) ≡ i
unfolding parse_server_info eqb key_value cut
parse_server_info-field_text i h =
    assign_all-field_text assign_server (server_fields i) [] empty_server h
    ∙ rw (
      fill (λ v. record empty_server { site = v }) i.site,
      fill (λ v. record empty_server { site = i.site; port = v }) i.port,
      fill (λ v. record empty_server { site = i.site; port = i.port; instance_name = v })
          i.instance_name,
      fill
          (λ v. record empty_server {
            site = i.site;
            port = i.port;
            instance_name = i.instance_name;
            program = v;
          })
          i.program,
      fill
          (λ v. record empty_server {
            site = i.site;
            port = i.port;
            instance_name = i.instance_name;
            program = i.program;
            version = v;
          })
          i.version,
    )
