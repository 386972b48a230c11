-- ===== src/Vhost/Url.antt =====
-- The package net/url, as far as internal/vhost uses it: an address by its parts, and the operations
-- of the package, which are parameters. The user and the opaque part of an address are left out:
-- the program sets neither, and leaves them as they were parsed.
use cifera.Base.{Text, Option, List}

pub record Url : Type 0 where
  pub scheme : Text
  pub host : Text
  pub path : Text
  pub raw_path : Text
  pub raw_query : Text
  pub fragment : Text

-- url.Values
abbrev pub Values : Type 0
Values = List (Text × List Text)

pub record Urls : Type 0 where
  pub parse : Text → Option Url
  pub print : Url → Text
  pub parse_query : Text → Values
  pub encode : Values → Text
