-- ===== src/S3/Errors.antt =====
-- internal/s3api/errors.go: the catalogue, and the two translations into it of service.go and
-- router.go.
use telang.Common.{ℕ, String}
use telang.Storage.Interface.{
  StorageError, too_large, not_found, throttled, unavailable, other_failure,
}

pub data S3Error : Type 0 where
  no_such_bucket no_such_key bucket_already_owned_by_you bucket_not_empty : S3Error
  invalid_bucket_name invalid_argument entity_too_large missing_content_length : S3Error
  access_denied signature_does_not_match invalid_access_key_id : S3Error
  request_time_too_skewed internal_error not_implemented slow_down : S3Error
  service_unavailable insufficient_storage x_amz_content_sha256_missing : S3Error
  invalid_range no_such_upload invalid_part invalid_part_order entity_too_small : S3Error
  malformed_xml : S3Error

-- The `Code` element.
unfoldable pub error_code : S3Error → String
error_code no_such_bucket = "NoSuchBucket"
error_code no_such_key = "NoSuchKey"
error_code bucket_already_owned_by_you = "BucketAlreadyOwnedByYou"
error_code bucket_not_empty = "BucketNotEmpty"
error_code invalid_bucket_name = "InvalidBucketName"
error_code invalid_argument = "InvalidArgument"
error_code entity_too_large = "EntityTooLarge"
error_code missing_content_length = "MissingContentLength"
error_code access_denied = "AccessDenied"
error_code signature_does_not_match = "SignatureDoesNotMatch"
error_code invalid_access_key_id = "InvalidAccessKeyId"
error_code request_time_too_skewed = "RequestTimeTooSkewed"
error_code internal_error = "InternalError"
error_code not_implemented = "NotImplemented"
error_code slow_down = "SlowDown"
error_code service_unavailable = "ServiceUnavailable"
error_code insufficient_storage = "InsufficientStorage"
error_code x_amz_content_sha256_missing = "XAmzContentSHA256Mismatch"
error_code invalid_range = "InvalidRange"
error_code no_such_upload = "NoSuchUpload"
error_code invalid_part = "InvalidPart"
error_code invalid_part_order = "InvalidPartOrder"
error_code entity_too_small = "EntityTooSmall"
error_code malformed_xml = "MalformedXML"

-- `httpStatus`
unfoldable pub http_status : S3Error → ℕ
http_status no_such_bucket = 404
http_status no_such_key = 404
http_status bucket_already_owned_by_you = 409
http_status bucket_not_empty = 409
http_status invalid_bucket_name = 400
http_status invalid_argument = 400
http_status entity_too_large = 413
http_status missing_content_length = 411
http_status access_denied = 403
http_status signature_does_not_match = 403
http_status invalid_access_key_id = 403
http_status request_time_too_skewed = 403
http_status internal_error = 500
http_status not_implemented = 501
http_status slow_down = 503
http_status service_unavailable = 503
http_status insufficient_storage = 507
http_status x_amz_content_sha256_missing = 400
http_status invalid_range = 416
http_status no_such_upload = 404
http_status invalid_part = 400
http_status invalid_part_order = 400
http_status entity_too_small = 400
http_status malformed_xml = 400

-- An error that a service method returns: an `*S3Error`, or another error.
pub data ServiceError : Type 0 where
  s3 : S3Error → ServiceError
  plain : ServiceError

-- `mapBackendErr`
unfoldable pub map_backend_err : StorageError → ServiceError
map_backend_err too_large = s3 entity_too_large
map_backend_err throttled = s3 slow_down
map_backend_err unavailable = s3 service_unavailable
map_backend_err not_found = s3 no_such_key
map_backend_err other_failure = plain

-- `writeServiceErr`: the error that reaches the client.
unfoldable pub write_service_err : ServiceError → S3Error
write_service_err (s3 e) = e
write_service_err plain = internal_error

-- What `Verifier.Verify` can return: a sentinel of sigv4, or another error.
pub data AuthError : Type 0 where
  missing_auth malformed_auth unknown_access_key signature_mismatch expired : AuthError
  bad_payload_hash unsupported_algo other_auth_error : AuthError

-- `sigv4ErrToS3`
unfoldable pub sigv4_err_to_s3 : AuthError → S3Error
sigv4_err_to_s3 missing_auth = access_denied
sigv4_err_to_s3 malformed_auth = access_denied
sigv4_err_to_s3 unknown_access_key = invalid_access_key_id
sigv4_err_to_s3 signature_mismatch = signature_does_not_match
sigv4_err_to_s3 expired = request_time_too_skewed
sigv4_err_to_s3 bad_payload_hash = x_amz_content_sha256_missing
sigv4_err_to_s3 _ = access_denied
