-- ===== src/Source/Building.antt =====
-- internal/source: the sources that `Build` makes, and what is collected from them.
use mathlib.Core.Option
use cloud_route_manager.Base.{
  ◌≡◌, refl, ap, ◌∙◌, subst, Text, codes, false, List, [], ◌∷◌, ◌++◌, arith, Option, none, some,
  Error, errorf, to_list, Result, ok, err, All, All-append, is_empty, ok-injective,
}
use cloud_route_manager.Base.Strings.{join_texts}
use cloud_route_manager.Base.Sorting.{sort_by, sort_by-All}
use cloud_route_manager.Netip.{Prefix, prefix_eq, IsCanonical}
use cloud_route_manager.Routes.{sorted, parse, parse_one}
use cloud_route_manager.Routes.Parsing.{parse_one-IsCanonical}
use cloud_route_manager.Routes.Sets.{add_all-All}
use cloud_route_manager.Routes.Members.{tokens, rejected}
use cloud_route_manager.Routes.Invariance.{parse-All, error-parse}
use cloud_route_manager.Config.{StaticSource, configured}
use cloud_route_manager.Config
use cloud_route_manager.Source.{
  Fetched, FileRead, content, missing, failed, Source, Clients, static_source, new_static,
  static_of, from_file, from_object, from_parameter, from_attribute, behind_client, file_source,
  s3_source, ssm_source, yandex_source, others, check_built, with_static, build, build_from,
  Collector, new_collector, gather, collect_all, collect,
}

module _ (World : Type 0) (P : Prefix → Type 0)
    (of_token : (t : Text) (p : Prefix) → parse_one t ≡ ok p → P p) where
  -- Whatever the world, the source gives only prefixes with the property, which `ParseOne` ensures.
  abbrev pub IsSound : Source World → Type 0
  IsSound s = (w : World) → All P (s.fetch w).0.0

  static_of-IsSound :
      (r : Fetched) (s : Source World) → All P r.0 → static_of World r ≡ ok s → IsSound s
  unfolding static_of static_source
  static_of-IsSound (parsed, none) s c h w =
      subst (λ (x : Source World). All P (x.fetch w).0.0) (ok-injective h) c
  static_of-IsSound (parsed, some e) s c h w = cc h

  new_static-IsSound :
      (list : List Text) (s : Source World) → new_static World list ≡ ok s → IsSound s
  unfolding new_static
  new_static-IsSound list s h =
      static_of-IsSound (parse (join_texts (codes "\n") list)) s (parse-All P of_token _) h

  from_file-All : (cfg : Config.FileSource) (r : FileRead) → All P (from_file World cfg r).0
  unfolding from_file
  from_file-All cfg (content raw) = parse-All P of_token raw
  from_file-All cfg (missing e) = ground arith
  from_file-All cfg (failed e) = tt

  from_object-All : (r : Result (Result Text)) → All P (from_object World r).0
  unfolding from_object
  from_object-All (err e) = tt
  from_object-All (ok (err e)) = tt
  from_object-All (ok (ok raw)) = parse-All P of_token raw

  from_parameter-All : (r : Result (Option (Option Text))) → All P (from_parameter World r).0
  unfolding from_parameter
  from_parameter-All (err e) = tt
  from_parameter-All (ok none) = tt
  from_parameter-All (ok (some none)) = parse-All P of_token []
  from_parameter-All (ok (some (some value))) = parse-All P of_token value

  from_attribute-All : (r : Result Text) → All P (from_attribute World r).0
  unfolding from_attribute
  from_attribute-All (err e) = tt
  from_attribute-All (ok raw) = parse-All P of_token raw

  behind_client-All :
      (r : Option Error × World) (next : World → Fetched × World)
      → ((w : World) → All P (next w).0.0)
      → All P (behind_client World r next).0.0
  unfolding behind_client
  behind_client-All (some e, w) next h = tt
  behind_client-All (none, w) next h = h w

  module _ (clients : Clients World) where
    open clients use {get_object, get_parameter}

    others-IsSound : (cfg : Config.Source) → All IsSound (others World clients cfg)
    unfolding others file_source s3_source ssm_source yandex_source
    others-IsSound cfg =
        All-append IsSound _ _ (to_list_sound _ (λ c w. from_file-All c _) cfg.file) (
          All-append IsSound _ _
            (to_list_sound _ (λ c w. behind_client-All _ _ (λ v. from_object-All _)) cfg.s3)
            (All-append IsSound _ _
              (to_list_sound _ (λ c w. behind_client-All _ _ (λ v. from_parameter-All _))
                cfg.aws_ssm)
              (to_list_sound _ (λ c w. from_attribute-All _) cfg.yandex_metadata)))
      where
        to_list_sound :
            {A : Type 0}
            → (make : A → Source World) → ((a : A) → IsSound (make a))
            → (o : Option A) → All IsSound (to_list (Option.map make o))
        to_list_sound make h none = tt
        to_list_sound make h (some a) = (h a, tt)

    check_built-IsSound :
        (rest sources : List (Source World))
        → All IsSound rest
        → check_built World clients rest ≡ ok sources
        → All IsSound sources
    check_built-IsSound [] sources r h = cc h
    check_built-IsSound (s ∷ rest) sources r h = subst (All IsSound) (ok-injective h) r

    with_static-IsSound :
        (made : Result (Source World)) (rest sources : List (Source World))
        → ((s : Source World) → made ≡ ok s → IsSound s)
        → All IsSound rest
        → with_static World clients made rest ≡ ok sources
        → All IsSound sources
    with_static-IsSound (err e) rest sources m r h = cc h
    with_static-IsSound (ok s) rest sources m r h =
        subst (All IsSound) (ok-injective h) (m s refl, r)

    build_from-IsSound :
        (o : Option StaticSource) (rest sources : List (Source World))
        → All IsSound rest
        → build_from World clients o rest ≡ ok sources
        → All IsSound sources
    build_from-IsSound none rest sources r h = check_built-IsSound rest sources r h
    build_from-IsSound (some s) rest sources r h =
        with_static-IsSound (new_static World s.routes) rest sources (new_static-IsSound s.routes) r
          h

    build-IsSound :
        (cfg : Config.Source) (sources : List (Source World))
        → build World clients cfg ≡ ok sources
        → All IsSound sources
    unfolding build
    build-IsSound cfg sources h =
        build_from-IsSound cfg.static (others World clients cfg) sources (others-IsSound cfg) h

  gather-All :
      (name : Text) (r : Fetched) (c : Collector World)
      → All P r.0
      → All P c.set.items
      → All P (gather World name r c).set.items
  unfolding gather
  gather-All name (found, none) c k h = add_all-All P found c.set k h
  gather-All name (found, some e) c k h = h

  collect_all-All :
      (sources : List (Source World)) (c : Collector World) (w : World)
      → All IsSound sources
      → All P c.set.items
      → All P (collect_all World sources c w).0.set.items
  unfolding collect_all
  collect_all-All [] c w k h = h
  collect_all-All (s ∷ sources) c w k h =
      collect_all-All sources _ _ k.1 (gather-All s.name (s.fetch w).0 c (k.0 w) h)

  pub collect-All :
      (clients : Clients World) (cfg : Config.Source) (sources : List (Source World)) (w : World)
      → build World clients cfg ≡ ok sources
      → All P (collect World sources w).0.0
  unfolding collect sorted
  collect-All clients cfg sources w h =
      sort_by-All _ P _
        (collect_all-All sources (new_collector World) w (build-IsSound clients cfg sources h) tt)

module _ (World : Type 0) where
  -- Whatever the clients answer, the sources that `Build` makes are collected into canonical prefixes
  -- only.
  pub build-collect :
      (clients : Clients World) (cfg : Config.Source) (sources : List (Source World)) (w : World)
      → build World clients cfg ≡ ok sources
      → All IsCanonical (collect World sources w).0.0
  build-collect clients cfg sources w h =
      collect-All World IsCanonical parse_one-IsCanonical clients cfg sources w h

  rejected_error :
      (raw : Text)
      → is_empty (rejected (tokens raw)) ≡ false
      → (e : Error) × ((parse raw).1 ≡ some e)
  rejected_error raw h = (
    errorf "invalid routes: %s" (join_texts (codes ", ") (rejected (tokens raw)) ∷ []),
    error-parse raw ∙ rw h,
  )

  gather_rejected :
      (name : Text) (r : Fetched) (e : Error) (c : Collector World)
      → r.1 ≡ some e
      → (gather World name r c).set ≡ c.set
  unfolding gather
  gather_rejected name (found, none) e c h = cc h
  gather_rejected name (found, some e') e c h = refl

  -- One token of a file that is no route keeps every route of the file from being collected.
  pub collect-rejected :
      (clients : Clients World) (cfg : Config.FileSource) (raw : Text) (w w' : World)
      → clients.read_file cfg.path w ≡ (content raw, w')
      → is_empty (rejected (tokens raw)) ≡ false
      → (collect World (file_source World clients cfg ∷ []) w).0.0 ≡ []
  unfolding collect collect_all file_source from_file sorted sort_by
  collect-rejected clients cfg raw w w' r h =
      let (e, k) = rejected_error raw h in
      ap sorted (
        ap
          (λ x.
            (gather World (codes "file:" ++ cfg.path) (from_file World cfg x.0)
              (new_collector World)).set)
          r
        ∙ gather_rejected (codes "file:" ++ cfg.path) (parse raw) e (new_collector World) k)
