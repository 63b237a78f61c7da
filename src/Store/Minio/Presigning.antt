-- ===== src/Store/Minio/Presigning.antt =====
-- The cache of the handles that sign URLs is not seen: a URL is signed as without it.
use telebook_server.Prelude.{
  String, ◌≡◌, refl, ap, ◌∙◌, sym, Bool, true, false, Option, none, some, List, [], ◌∷◌, lookup,
  insert, lookup-insert, eq_iff, ◌==◌, Bool-cases, inl, inr, if◌then◌else◌,
}
use telebook_server.Model.Errors.{Error, Result, ok, err, Result-cases}
use telebook_server.Store.Minio.{
  MinioClient, MinioSettings, MinioState, HostNames, normalize_host, endpoint_of, remember,
  cached_or_new, client_for_name, presign_client_for, presign_download, presign_existing, signed,
  has_object, has_stat,
}

module _ {C B : Type 0} (api : MinioClient C B) (names : HostNames) (v : MinioSettings C) where
  abbrev new_or_inner : Option C → C
  new_or_inner none = v.client
  new_or_inner (some c) = c

  -- The handle for an address, made anew.
  unfoldable pub fresh_client : String → C
  fresh_client host = new_or_inner (api.new_client (endpoint_of api names v host))

  abbrev fresh_for_name : Option C → String → C
  fresh_for_name (some c) name = c
  fresh_for_name none name = if name == "" then v.client else fresh_client name

  -- The handle for the host of a request, made anew.
  unfoldable pub uncached_client : String → C
  uncached_client host = fresh_for_name v.presign_client (normalize_host names host)

  -- What is kept is what would be made.
  record CacheValid (s : MinioState C B) : Type 0 where
    pub kept :
        (host : String) (c : C) → lookup host s.presign_cache ≡ some c → fresh_client host ≡ c

  -- The handle is the fresh one, the cache stays valid and the bucket as it was.
  record Transparent (c : C) (s : MinioState C B) (r : C × MinioState C B) : Type 0 where
    pub handle : r.0 ≡ c
    pub valid : CacheValid (r.1)
    pub bucket : r.1.bucket ≡ s.bucket

  insert-CacheValid :
      (host : String) (c : C) (s : MinioState C B)
      → fresh_client host ≡ c
      → CacheValid s
      → CacheValid (record s { presign_cache = insert host c s.presign_cache })
  insert-CacheValid host c s e w = record {
    kept = λ j d h. elim (Bool-cases (host == j)) [
      | inl same ↦
          let here : c ≡ d = cc (rw (lookup-insert host j c s.presign_cache, same) at h) in
          rw (sym ((eq_iff host j).0 same)) (e ∙ here)
      | inr other ↦ w.kept j d (rw (lookup-insert host j c s.presign_cache, other) at h)
    ];
  }

  remember-Transparent :
      (host : String) (o : Option C) (s : MinioState C B)
      → fresh_client host ≡ new_or_inner o
      → CacheValid s
      → Transparent (fresh_client host) s (remember api names v host o s)
  unfolding remember
  remember-Transparent host none s e w = record { handle = sym e; valid = w; bucket = refl }
  remember-Transparent host (some c) s e w = record {
    handle = sym e;
    valid = insert-CacheValid host c s e w;
    bucket = refl;
  }

  cached_or_new-Transparent :
      (o : Option C) (host : String) (s : MinioState C B)
      → lookup host s.presign_cache ≡ o
      → CacheValid s
      → Transparent (fresh_client host) s (cached_or_new api names v o host s)
  unfolding cached_or_new
  cached_or_new-Transparent (some c) host s hit w = record {
    handle = sym (w.kept host c hit);
    valid = w;
    bucket = refl;
  }
  cached_or_new-Transparent none host s miss w =
      remember-Transparent host (api.new_client (endpoint_of api names v host)) s
        (unfold fresh_client in refl) w

  client_for_name-Transparent :
      (o : Option C) (name : String) (s : MinioState C B)
      → CacheValid s
      → Transparent (fresh_for_name o name) s (client_for_name api names v o name s)
  unfolding client_for_name
  client_for_name-Transparent (some c) name s w = record { handle = refl; valid = w; bucket = refl }
  client_for_name-Transparent none name s w = elim (Bool-cases (name == "")) [
    | inl e ↦ rw e (record { handle = refl; valid = w; bucket = refl })
    | inr e ↦ rw e (cached_or_new-Transparent _ name s refl w)
  ]

  presign_client_for-Transparent :
      (host : String) (s : MinioState C B)
      → CacheValid s
      → Transparent (uncached_client host) s (presign_client_for api names v host s)
  unfolding presign_client_for uncached_client
  presign_client_for-Transparent host s w =
      client_for_name-Transparent v.presign_client (normalize_host names host) s w

  -- The state after a sequence of downloads of keys by hosts.
  unfoldable pub after_downloads : List (String × String) → MinioState C B → MinioState C B
  after_downloads [] s = s
  after_downloads ((key, host) ∷ ds) s =
      after_downloads ds (presign_download api names v key host s).1

  download-CacheValid :
      (key host : String) (s : MinioState C B)
      → CacheValid s
      → CacheValid (presign_download api names v key host s).1
  unfolding presign_download presign_existing has_object
  download-CacheValid key host s w =
      elim (Result-cases (has_stat api (api.stat_object key s.bucket))) [
        | inl (e, h) ↦ rw h w
        | inr (true, h) ↦ rw h ((presign_client_for-Transparent host s w).valid)
        | inr (false, h) ↦ rw h w
      ]

  download-bucket :
      (key host : String) (s : MinioState C B)
      → CacheValid s
      → (presign_download api names v key host s).1.bucket ≡ s.bucket
  unfolding presign_download presign_existing has_object
  download-bucket key host s w = elim (Result-cases (has_stat api (api.stat_object key s.bucket))) [
    | inl (e, h) ↦ rw h refl
    | inr (true, h) ↦ rw h ((presign_client_for-Transparent host s w).bucket)
    | inr (false, h) ↦ rw h refl
  ]

  after_downloads-CacheValid :
      (ds : List (String × String)) (s : MinioState C B)
      → CacheValid s
      → CacheValid (after_downloads ds s)
  unfolding after_downloads
  after_downloads-CacheValid [] s w = w
  after_downloads-CacheValid ((key, host) ∷ ds) s w =
      after_downloads-CacheValid ds _ (download-CacheValid key host s w)

  empty-CacheValid : (b : B) → CacheValid (record { bucket = b; presign_cache = [] })
  unfolding lookup
  empty-CacheValid b = record { kept = λ host c h. absurd (cc h) }

  -- The state after downloads, from an empty cache.
  abbrev pub downloaded : List (String × String) → B → MinioState C B
  downloaded ds b = after_downloads ds (record { bucket = b; presign_cache = [] })

  after_downloads-bucket :
      (ds : List (String × String)) (s : MinioState C B)
      → CacheValid s
      → (after_downloads ds s).bucket ≡ s.bucket
  unfolding after_downloads
  after_downloads-bucket [] s w = refl
  after_downloads-bucket ((key, host) ∷ ds) s w =
      after_downloads-bucket ds _ (download-CacheValid key host s w) ∙ download-bucket key host s w

  -- The answer to a download, with the handle made anew.
  unfoldable pub uncached_download : String → String → B → Result Bool → Result String
  uncached_download key host b (err e) = err e
  uncached_download key host b (ok false) = err Error.object_not_found
  uncached_download key host b (ok true) =
      signed api names v (api.presigned_get_object (uncached_client host) key b)

  download-uncached :
      (key host : String) (s : MinioState C B)
      → CacheValid s
      → (presign_download api names v key host s).0
        ≡ uncached_download key host s.bucket (has_stat api (api.stat_object key s.bucket))
  unfolding presign_download presign_existing has_object uncached_download
  download-uncached key host s w =
      let t = presign_client_for-Transparent host s w in
      elim (Result-cases (has_stat api (api.stat_object key s.bucket))) [
        | inl (e, h) ↦ rw h refl
        | inr (true, h) ↦ rw (h, t.handle, t.bucket) refl
        | inr (false, h) ↦ rw h refl
      ]

  -- After any downloads from an empty cache, `PresignDownload` answers as it would if the handle for
  -- the host was made anew each time.
  pub answers_as_uncached :
      (ds : List (String × String)) (key host : String) (b : B)
      → (presign_download api names v key host (downloaded ds b)).0
        ≡ uncached_download key host b (has_stat api (api.stat_object key b))
  answers_as_uncached ds key host b =
      download-uncached key host (downloaded ds b)
        (after_downloads-CacheValid ds _ (empty-CacheValid b))
      ∙ ap (λ c. uncached_download key host c (has_stat api (api.stat_object key c)))
          (after_downloads-bucket ds _ (empty-CacheValid b))
