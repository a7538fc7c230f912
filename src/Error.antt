-- ===== src/Error.antt =====
-- src/error.rs: the error values, and the messages that `thiserror` derives from their attributes.
-- An I/O error is its message.
use dns_ingress.Prelude.{◌++◌}
use dns_ingress.Prelude.Text.{Text, codes}

pub data SniRewriteError : Type 0 where
  no_matching_base_domain : Text → SniRewriteError

pub data CertificateError : Type 0 where
  load_failed : Text → Text → CertificateError
  not_configured : Text → CertificateError
  invalid_format : Text → CertificateError
  private_key : Text → CertificateError

pub data UpstreamError : Type 0 where
  connection_failed : Text → Text → UpstreamError
  request_failed : Text → Text → UpstreamError

pub data DnsProxyError : Type 0 where
  sni_rewrite : SniRewriteError → DnsProxyError
  tls : Text → DnsProxyError
  certificate : CertificateError → DnsProxyError
  upstream : UpstreamError → DnsProxyError
  timeout : Text → DnsProxyError
  overloaded : Text → Text → DnsProxyError
  io : Text → DnsProxyError
  protocol : Text → DnsProxyError
  invalid_input : Text → DnsProxyError

abbrev sni_rewrite_message : SniRewriteError → Text
sni_rewrite_message (no_matching_base_domain hostname) =
    codes "No matching base domain found for hostname: " ++ hostname

abbrev certificate_message : CertificateError → Text
certificate_message (load_failed path reason) =
    codes "Failed to load certificate from " ++ (path ++ (codes ": " ++ reason))
certificate_message (not_configured domain) =
    codes "No certificate configured for domain: " ++ domain
certificate_message (invalid_format reason) = codes "Invalid certificate format: " ++ reason
certificate_message (private_key reason) = codes "Private key error: " ++ reason

abbrev upstream_message : UpstreamError → Text
upstream_message (connection_failed peer reason) =
    codes "Failed to connect to upstream " ++ (peer ++ (codes ": " ++ reason))
upstream_message (request_failed peer reason) =
    codes "Upstream request failed to " ++ (peer ++ (codes ": " ++ reason))

-- `error.to_string()`
abbrev pub to_string : DnsProxyError → Text
to_string (sni_rewrite e) = codes "SNI rewrite failed: " ++ sni_rewrite_message e
to_string (tls reason) = codes "TLS error: " ++ reason
to_string (certificate e) = codes "Certificate error: " ++ certificate_message e
to_string (upstream e) = codes "Upstream connection error: " ++ upstream_message e
to_string (timeout peer) = codes "Upstream timeout: " ++ peer
to_string (overloaded peer kind) = kind ++ (codes " upstream pool is overloaded for " ++ peer)
to_string (io reason) = codes "Network I/O error: " ++ reason
to_string (protocol reason) = codes "Protocol error: " ++ reason
to_string (invalid_input reason) = codes "Invalid input: " ++ reason
