-- ===== src/Generator/Whole/Loading.antt =====
-- What a loader gets out of the file of `generate_profile` in src/generator.rs.
use Prim.Native.String.{String}
use mrtgen.Base.{
  ℕ, append-nil, ◌+◌, ◌≡◌, [], ◌++◌, List, Option, none, some, arith, length, length-append,
  length-map, map, take, take-append, is_some, if◌then◌else◌,
}
use mathlib.Core.List.{map-append}
use mrtgen.Writer
use mrtgen.Writer.Framing.{Frame, frame_of, Load, loaded, aborted, load}
use mrtgen.Manifest.{CorpusProfile}
use mrtgen.Generator.{
  FatalKind, Builder, Corpus, new_builder, push_raw, push_fatal, kind_name, next_timestamp,
}
use mrtgen.Generator.Loading.{Header, entry_header, frame_header, Builds, load-Builds, load_tail}
use mrtgen.Generator.Profile.{GeneratorConfig, built_corpus, generate_profile}
use mrtgen.Generator.Whole.{IsTailed, generate_profile_shape}

-- A tail makes the loader stop.
abbrev pub ends : Option FatalKind → List Frame → Load
ends none frames = loaded frames
ends (some fatal) frames = aborted frames

-- The entries that a tail adds.
abbrev pub tail_count : Option FatalKind → ℕ
tail_count fatal = if is_some fatal then 1 else 0

module _ {D : Type 0} where
  load-IsTailed :
      (fatal : Option FatalKind) (null : D) (base : ℕ) (profile : CorpusProfile) (b b' : Builder D)
      {rs : List Writer.MrtRecord}
      → Builds (new_builder base profile) rs b
      → IsTailed fatal null b b'
      → load b'.bytes ≡ ends fatal (map frame_of rs)
  load-IsTailed none null base profile b b' {rs = rs} steps t =
      rw t (load-Builds base profile rs b steps).0
  load-IsTailed (some fatal) null base profile b b' steps (raw, description, e, broken, size) =
      rw e
        (load_tail raw 16 1 (next_timestamp b) (kind_name fatal) description null steps broken size)

  headers-IsTailed :
      (fatal : Option FatalKind) (null : D) (b b' : Builder D) (headers : List Header)
      → IsTailed fatal null b b'
      → map entry_header b.entries ≡ headers
      → (take (length headers) (map entry_header b'.entries) ≡ headers)
        × (length b'.entries ≡ length headers + tail_count fatal)
  unfolding push_raw
  headers-IsTailed none null b b' headers t h =
      let padded : take (length headers) (headers ++ []) ≡ headers = take-append headers [] in
      let front : take (length headers) headers ≡ headers = rw (append-nil headers) at padded in
      let count : length b.entries ≡ length headers = cc (length-map entry_header b.entries, h) in
      (rw t (rw h front), rw t (omega (arith, count)))
  headers-IsTailed (some fatal) null b b' headers (raw, description, e, broken, size) h =
      let added : length (push_fatal raw fatal description null b).entries ≡ length b.entries + 1 =
        length-append b.entries _ in
      let count : length b.entries ≡ length headers = cc (length-map entry_header b.entries, h) in
      (rw e (rw map-append (rw h (take-append headers _))), rw e (omega (arith, added, count)))

module _ {D : Type 0} (details : String → D) (version : String) (null : D) where
  -- The built-in corpus is made without a panic for every profile and configuration. A load of
  -- the file gets framed records, to the end of the file, or up to the tail if the
  -- configuration asks for one; the manifest lists their timestamps, types, subtypes and sizes
  -- in order, and one more entry exactly for a tail.
  pub load-generate_profile :
      (profile : CorpusProfile) (cfg : GeneratorConfig)
      → (corpus : Corpus D) × (frames : List Frame) × (generate_profile details version null profile
            cfg
          ≡ some corpus)
        × (load corpus.bytes ≡ ends cfg.fatal frames)
        × (take (length frames) (map entry_header corpus.manifest.records)
            ≡ map frame_header frames)
        × (length corpus.manifest.records ≡ length frames + tail_count cfg.fatal)
  load-generate_profile profile cfg =
      let (ts, b, b', h, t, e, made) = generate_profile_shape details version null profile cfg in
      let frames = map frame_of h.records in
      let size = length-map frame_header frames in
      let (front, count) =
        headers-IsTailed cfg.fatal null b b' (map frame_header frames) t
          (load-Builds cfg.base_timestamp profile h.records b h.builds).1 in
      (
        built_corpus version b',
        frames,
        made,
        load-IsTailed cfg.fatal null cfg.base_timestamp profile b b' h.builds t,
        rw size at front,
        rw size at count,
      )
